-- ===== src/Examples/Commands.antt =====
-- Witnesses for the commands: a download of one file from the phone, a run of the queue with it, and a
-- deletion that fails.
use syncer.Prelude.{
  ℕ, ◌≡◌, ◌≢◌, refl, ap, String, false, none, some, List, [], ◌∷◌, ◌++◌, Result, ok, err, ◌<◌,
  length, length-append, arith,
}
use syncer.Prelude.Lists.{split_at}
use syncer.Prelude.Words.{pos}
use syncer.Prelude.Texts.{Text, codes}
use syncer.Core.JsonFile.{JsonFile, holds}
use syncer.Core.Manifest.{file}
use syncer.Core.Model.{propagate_to_peers}
use syncer.Core.StateDb.Records.{
  FolderManifest, SyncOperationRecord, download_from_remote, pending, local_available,
}
use syncer.Core.StateDb.Tables.{FileRow, OperationRow}
use syncer.Agent.Handler.{Device}
use syncer.Agent.PeerClient.{Peer, invalid_response}
use syncer.Agent.PeerCrypto.{encryption_algorithm}
use syncer.Agent.Profile.{LocalDeviceProfile}
use syncer.Agent.Commands.{CommandCrates}
use syncer.Agent.Commands.Delete.{delete_file}
use syncer.Agent.Commands.Delete.Laws.{delete_file-lost}
use syncer.Agent.Commands.Download.{download_operation, download_path, encrypted_download_path}
use syncer.Agent.Commands.Download.Downloaded.{IsDownloaded, download_operation-IsDownloaded}
use syncer.Agent.Commands.Errors.{AgentError, missing_delete_peer_config}
use syncer.Agent.Commands.Queue.{ExecuteSyncQueueOutput, empty_output, run_sync_queue}
use syncer.Agent.Commands.Queue.Run.{IsRun, run_sync_queue-IsRun}
use syncer.Examples.{head, phone, record_of}
use syncer.Examples.Agent.{
  std_agent, std_agent-HasAead, zero_tag, noon, file_list, file_list-IsPosix,
}
use syncer.Examples.Transfers.{secret_text, nonce_prefix}
use syncer.Examples.Peers.{folder_disk, one_peer, laptop_profile}

abbrev std_commands : CommandCrates
std_commands = record {
  agent = std_agent;
  parent = λ path. path;
  with_extension = λ path extension. path ++ extension;
  error_text = λ e. "failed";
}

abbrev phone_manifest : FolderManifest
phone_manifest = record phone { files = record_of (codes "b") 4 "digest" local_available ∷ [] }

abbrev response_head : Text
response_head =
    codes
      "HTTP/1.1 200 OK\r\ncontent-length: 20\r\nx-syncer-content-hash: digest\r\nx-syncer-encryption: "
    ++ (encryption_algorithm
        ++ (codes "\r\nx-syncer-nonce: " ++ (nonce_prefix ++ codes "\r\n\r\n")))

abbrev phone_as_peer : Peer
phone_as_peer = record {
  post_presence = λ presence. err invalid_response;
  fetch_manifest = ok phone_manifest;
  shared_secret_hex = secret_text;
  get_file = λ path. ok (response_head, ok (1 ∷ 2 ∷ 3 ∷ 4 ∷ zero_tag) ∷ []);
  put_file_from_path = λ path hash size. err invalid_response;
  delete_file = λ path hash size. err invalid_response;
}

abbrev download_row : OperationRow
download_row = record {
  id = "op";
  path = codes "b";
  kind = download_from_remote;
  status = pending;
  reason = "";
  local_size_bytes = none;
  remote_size_bytes = some 4;
  local_content_hash = none;
  remote_content_hash = some "digest";
  remote_device_id = "phone";
  last_error = none;
  retry_count = 0;
  started_at_unix = none;
  finished_at_unix = none;
  created_at_unix = 100;
  updated_at_unix = 100;
}

abbrev download_b : SyncOperationRecord
download_b = record {
  id = "op";
  path = codes "b";
  kind = download_from_remote;
  status = pending;
  reason = "";
  local_size_bytes = none;
  remote_size_bytes = some 4;
  local_content_hash = none;
  remote_content_hash = some "digest";
  remote_device_id = "phone";
  last_error = none;
  retry_count = 0;
  started_at = none;
  finished_at = none;
  created_at = 100;
  updated_at = 100;
}

abbrev file_a : FileRow
file_a = record {
  path = codes "a";
  kind = file;
  size_bytes = 2;
  modified_at_unix = pos 100;
  content_hash = some "ha";
  block_hashes_json = "[]";
  generation = 1;
  device_id = "laptop";
  scan_missing = false;
  sync_state = local_available;
  updated_at_unix = 100;
}

abbrev device : Device file_list
device = record {
  files = (codes "/f/a", 1 ∷ 2 ∷ []) ∷ [];
  folder_json = folder_disk;
  peers = holds one_peer;
  database = record {
    files = file_a ∷ [];
    skipped_files = [];
    sync_operations = download_row ∷ [];
  };
}

abbrev downloaded : Device file_list
downloaded =
    (download_operation std_commands file_list (codes "/f") 1 noon 9 phone_as_peer phone_manifest
      download_b device).0

abbrev download_target : Text
download_target = download_path std_commands file_list (codes "/f") 1 noon 9 "op"

part-ne-target : download_target ≢ codes "/f/b"
unfolding download_path syncer.Agent.Commands.Download.download_dir
    syncer.Core.FolderStore.syncer_dir syncer.Prelude.Paths.push
part-ne-target same =
    let heads : (let n : ℕ = 46 in n ≡ 98) = ap (λ t. head (split_at 3 t).1) same in
    absurd (omega (arith, heads))

same_append : (path rest : Text) → 0 < length rest → path ≢ path ++ rest
same_append path rest more same =
    let sizes : length path ≡ length (path ++ rest) = ap length same in
    absurd (omega (arith, sizes, length-append path rest, more))

abbrev extension : Text
extension = codes "syncer-download-" ++ (codes "id" ++ codes ".enc")

part-ne-encrypted :
    download_target
    ≢ encrypted_download_path std_commands file_list (codes "/f") 1 noon 9 download_target
unfolding encrypted_download_path
part-ne-encrypted = same_append download_target extension (omega arith)

download_operation-IsDownloaded_example :
    IsDownloaded std_commands file_list
      (codes "/f")
      1
      noon
      9
      phone_as_peer
      phone_manifest
      download_b
      device
      downloaded
unfolding syncer.Prelude.Paths.push download_operation syncer.Prelude.text_beq
    syncer.Prelude.Tests.option_string_beq syncer.Prelude.Paths.is_whitespace
    syncer.Prelude.Paths.components
download_operation-IsDownloaded_example =
    download_operation-IsDownloaded std_commands file_list (codes "/f") 1 noon 9 file_list-IsPosix
      std_agent-HasAead phone_as_peer phone_manifest download_b device part-ne-target
      part-ne-encrypted refl

abbrev profile_file : JsonFile LocalDeviceProfile
profile_file = holds laptop_profile

abbrev output_of : Result AgentError ExecuteSyncQueueOutput → ExecuteSyncQueueOutput
output_of (ok out) = out
output_of (err e) = empty_output

abbrev report : ExecuteSyncQueueOutput
report =
    output_of
      (run_sync_queue std_commands file_list noon (codes "/f") (codes "device.json") profile_file 9
        phone_as_peer 5 device).1

run_sync_queue-IsRun_example :
    IsRun std_commands file_list noon
      (codes "/f")
      (codes "device.json")
      profile_file
      9
      phone_as_peer
      5
      device
      report
unfolding run_sync_queue syncer.Agent.Profile.read syncer.Prelude.Paths.components
    syncer.Prelude.Paths.push syncer.Prelude.text_beq syncer.Prelude.Paths.is_whitespace
run_sync_queue-IsRun_example =
    run_sync_queue-IsRun std_commands file_list noon (codes "/f") (codes "device.json") profile_file
      9 phone_as_peer 5 device refl

delete_file-lost_example :
    delete_file std_commands file_list noon
      (codes "/f")
      (codes "device.json")
      profile_file
      (λ endpoint secret. phone_as_peer)
      (codes "a")
      propagate_to_peers
      none
      none
      device
    ≡ (record device { files = [] }, err missing_delete_peer_config)
unfolding syncer.Core.Manifest.parse syncer.Prelude.Paths.is_whitespace
    syncer.Prelude.Paths.is_absolute syncer.Prelude.Paths.components syncer.Prelude.text_beq
    syncer.Prelude.Paths.push syncer.Core.StateDb.Files.Reads.list_files
    syncer.Agent.Manifests.find_record
delete_file-lost_example =
    delete_file-lost std_commands file_list noon (codes "/f") (codes "device.json") profile_file
      (λ endpoint secret. phone_as_peer) (codes "a") (codes "a")
      (record_of (codes "a") 2 "ha" local_available ∷ [])
      (record_of (codes "a") 2 "ha" local_available) none device refl refl refl refl refl
