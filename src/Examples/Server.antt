-- ===== src/Examples/Server.antt =====
-- Witnesses for the peer server: requests of a trusted phone and of a stranger.
use syncer.Prelude.{
  ℕ, ◌≡◌, ◌⊎◌, ◌↔◌, refl, String, true, none, some, List, [], ◌∷◌, ◌++◌, Result, ok, err, arith,
}
use syncer.Prelude.Words.{pos}
use syncer.Prelude.Texts.{Text, codes}
use syncer.Core.JsonFile.{holds}
use syncer.Core.StateDb.Records.{FileRecord}
use syncer.Agent.Handler.{Device}
use syncer.Agent.Manifests.{hash_is}
use syncer.Agent.PeerServer.{
  HttpRequest, HttpBody, memory, file, PeerServerError, PeerResponse, FileBody, PeerServerConfig,
  UploadEncryption, unauthorized, UploadFileResponse,
}
use syncer.Agent.PeerServer.Auth.{verify_peer_request}
use syncer.Agent.PeerServer.Auth.Laws.{IsSigned, verify_peer_request_iff}
use syncer.Agent.PeerServer.Folder.{delete_shared_file, write_uploaded_file}
use syncer.Agent.PeerServer.Folder.Delete.{IsShared, delete_shared_file-files}
use syncer.Agent.PeerServer.Folder.Upload.{IsUploaded, write_uploaded_file-IsUploaded}
use syncer.Agent.PeerServer.Http.{RequestHead, arrived}
use syncer.Agent.PeerServer.Http.Body.{Spool, read_body, read_request}
use syncer.Agent.PeerServer.Http.Bodies.{ReadsBody, read_body-HasLength}
use syncer.Agent.PeerServer.Http.Ends.{read_request-Ends}
use syncer.Agent.PeerServer.Http.Loops.{Ends}
use syncer.Agent.PeerServer.Route.{answer}
use syncer.Agent.PeerServer.Route.Guarded.{IsHarmless, answer-IsHarmless}
use syncer.Examples.Agent.{
  std_agent, std_agent-HasAead, std_server, noon, good_output, file_list, file_list-IsPosix,
  zero_tag, erase,
}
use syncer.Examples.Peers.{payload, one_peer, folder_disk, laptop_profile}
use syncer.Examples.Transfers.{secret_text, nonce_prefix}

abbrev request_of : Text → HttpRequest
request_of signature = record {
  method = codes "GET";
  path = codes "/manifest";
  headers =
      (codes "x-syncer-device-id", codes "phone")
      ∷ (codes "x-syncer-timestamp", codes "1000")
      ∷ (codes "x-syncer-signature", signature)
      ∷ [];
  body_sha256_hex = [];
  body = memory [];
}

abbrev from_phone : HttpRequest
from_phone = request_of (secret_text ++ payload)

verify_peer_request_iff_example :
    (verify_peer_request std_agent (codes "peers") (holds one_peer) (pos 1000) from_phone
      ≡ ok secret_text)
    ↔ IsSigned std_agent (codes "peers") (holds one_peer) (pos 1000) from_phone secret_text
verify_peer_request_iff_example =
    verify_peer_request_iff std_agent (codes "peers") (holds one_peer) (pos 1000) from_phone
      secret_text

abbrev device : Device file_list
device = record {
  files = [];
  folder_json = folder_disk;
  peers = holds one_peer;
  database = record { files = []; skipped_files = []; sync_operations = [] };
}

abbrev config : PeerServerConfig
config = record { folder_path = codes "/f"; profile = laptop_profile }

-- An upload of a stranger, whose body has been spooled.
abbrev stranger_body : HttpBody
stranger_body = file (record {
  path = codes "/f/.syncer/tmp/requests/id.body";
  size_bytes = 2;
  sha256_hex = 1 ∷ 2 ∷ [];
  contents = 1 ∷ 2 ∷ [];
})

abbrev from_stranger : HttpRequest
from_stranger = record {
  method = codes "PUT";
  path = codes "/file/a";
  headers = [];
  body_sha256_hex = 1 ∷ 2 ∷ [];
  body = stranger_body;
}

abbrev answered : Device file_list × Result PeerServerError PeerResponse
answered =
    answer std_server file_list config noon (codes "peers") nonce_prefix (ok from_stranger) device

answer-IsHarmless_example :
    IsHarmless std_server file_list config noon
      (codes "peers")
      nonce_prefix
      unauthorized
      stranger_body
      device
      answered.0
      answered.1
unfolding verify_peer_request
answer-IsHarmless_example =
    answer-IsHarmless std_server file_list config noon (codes "peers") nonce_prefix
      file_list-IsPosix unauthorized from_stranger device refl

delete_shared_file-files_example :
    (let after =
        (delete_shared_file std_server file_list config noon
          (codes "a")
          2
          (codes "digest")
          device).0 in
      (after.files ≡ [])
      ⊎ ((found : FileRecord) × IsShared std_server file_list config noon (codes "a") device found
          × (found.size_bytes ≡ 2)
          × (hash_is found.content_hash (codes "digest") ≡ true)
          × (after.files ≡ erase [] (codes "/f/a"))))
unfolding syncer.Prelude.Paths.push
delete_shared_file-files_example =
    delete_shared_file-files std_server file_list config noon (codes "a") 2 (codes "digest") device

abbrev encryption : UploadEncryption
encryption = record { shared_secret_hex = secret_text; nonce_hex = nonce_prefix }

abbrev body : FileBody
body = record {
  path = codes "body";
  size_bytes = 19;
  sha256_hex = [];
  contents = 1 ∷ 2 ∷ 3 ∷ zero_tag;
}

abbrev uploaded : Device file_list
uploaded =
    (write_uploaded_file std_server file_list config noon (codes "b") 3 (codes "digest") encryption
      body device).0

write_uploaded_file-IsUploaded_example :
    IsUploaded std_server file_list config noon
      (codes "b")
      3
      (codes "digest")
      encryption
      body
      device
      uploaded
unfolding write_uploaded_file syncer.Agent.PeerCrypto.decrypt_file_to_path syncer.Prelude.text_beq
    syncer.Agent.PeerServer.Folder.plaintext_path syncer.Prelude.Paths.push
    syncer.Agent.PeerServer.Folder.plaintext_dir
write_uploaded_file-IsUploaded_example =
    write_uploaded_file-IsUploaded std_server file_list config noon std_agent-HasAead
      file_list-IsPosix (codes "b") 3 (codes "digest") encryption body device (omega arith) refl

abbrev test_spool : Spool
test_spool = record { path = codes "spool"; directory = ok tt; output = good_output }

abbrev put_head : RequestHead
put_head = record { method = codes "PUT"; path = codes "/file/b"; headers = []; content_length = 3 }

read_body-HasLength_example :
    ReadsBody 3 (read_body std_agent test_spool put_head (1 ∷ []) (arrived (2 ∷ 3 ∷ []) ∷ []))
read_body-HasLength_example =
    read_body-HasLength std_agent test_spool put_head (1 ∷ []) (arrived (2 ∷ 3 ∷ []) ∷ [])

read_request-Ends_example :
    Ends (read_request std_agent test_spool (arrived (codes "GET /health HTTP/1.1\r\n\r\n") ∷ []))
read_request-Ends_example =
    read_request-Ends std_agent test_spool (arrived (codes "GET /health HTTP/1.1\r\n\r\n") ∷ [])
