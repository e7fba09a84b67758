-- ===== src/Agent/PeerServer/Response.antt =====
-- crates/syncer-agent/src/peer_server.rs: how a response is written.
use syncer.Prelude.{
  ℕ, ◌∷◌, ◌++◌, String, true, List, [], ok, err, ◌==◌, nat_eq, if◌then◌else◌, map_err, length,
}
use syncer.Prelude.Decimal.{display}
use syncer.Prelude.Texts.{Text, codes}
use syncer.Prelude.Utf8
use syncer.Core.Manifest.{RelativePath}
use syncer.Agent.FileSystem.{FileSystem}
use syncer.Agent.Handler.{Handler, ◌>>=◌, ◌>>◌, pure, ask, put_files}
use syncer.Agent.PeerCrypto.{encrypt_file_to_path, encryption_algorithm}
use syncer.Agent.PeerServer.{
  PeerServerError, ServerResult, filesystem, json, peer_crypto, error_status, public_code, Body,
  failure, PeerResponse, bytes, file, SharedFile, ServerCrates, Moment,
}

unfoldable pub reason : ℕ → String
reason status =
    if status == 200
    then "OK"
    else if status == 400
    then "Bad Request"
    else if status == 401
    then "Unauthorized"
    else if status == 404
    then "Not Found"
    else if status == 409
    then "Conflict"
    else if status == 413
    then "Payload Too Large"
    else "Internal Server Error"

abbrev pub crlf : Text
crlf = codes "\r\n"

unfoldable pub header_lines : List (Text × Text) → Text
header_lines [] = []
header_lines ((name, value) ∷ headers) =
    name ++ (codes ": " ++ (value ++ (crlf ++ header_lines headers)))

unfoldable pub response_header : ℕ → Text → ℕ → List (Text × Text) → Text
unfolding reason header_lines display
response_header status content_type content_length extra_headers =
    codes "HTTP/1.1 "
    ++ (display status
        ++ (codes " "
            ++ (codes (reason status)
                ++ (crlf
                    ++ (codes "content-type: "
                        ++ (content_type
                            ++ (crlf
                                ++ (codes "content-length: "
                                    ++ (display content_length
                                        ++ (crlf
                                            ++ (header_lines extra_headers
                                                ++ codes "connection: close\r\n\r\n")))))))))))

unfoldable pub binary_response : ℕ → Text → List ℕ → List ℕ
unfolding response_header
binary_response status content_type body =
    Utf8.bytes (response_header status content_type (length body) []) ++ body

unfoldable pub json_response : ServerCrates → ℕ → Body → ServerResult PeerResponse
unfolding binary_response
json_response c status value = elim (c.to_vec value) [
  | err message ↦ err (json message)
  | ok body ↦ ok (bytes (binary_response status (codes "application/json") body))
]

unfoldable pub error_response : ServerCrates → PeerServerError → PeerResponse
unfolding json_response error_status public_code
error_response c error = elim (json_response c (error_status error) (failure (public_code error))) [
  | ok response ↦ response
  | err e ↦
      bytes (
        codes
          "HTTP/1.1 500 Internal Server Error\r\ncontent-length: 0\r\nconnection: close\r\n\r\n")
]

module _ (c : ServerCrates) (F : FileSystem) (m : Moment) where
  -- `random` is the nonce prefix that the random generator gives.
  unfoldable pub encrypted_file_response :
      List ℕ → ℕ → SharedFile → RelativePath → Text → Handler F PeerServerError PeerResponse
  unfolding response_header
  encrypted_file_response random status shared path shared_secret_hex = do
    let encrypted_path =
        c.with_extension shared.path (codes "syncer-response-" ++ (m.fresh ++ codes ".enc"))
    (encrypted, ciphertext) ← ask λ d. map_err peer_crypto (
        encrypt_file_to_path c.agent (F.reads d.files shared.path) (F.output d.files encrypted_path)
          shared_secret_hex random
          (record {
            direction = codes "download";
            path = path;
            content_hash = codes shared.content_hash;
            plaintext_size = shared.size_bytes;
          }))
    λ d. put_files (F.store d.files encrypted_path ciphertext) d
    pure (
        file
          (response_header status (codes "application/octet-stream") encrypted.size_bytes (
            (codes "x-syncer-encryption", encryption_algorithm)
            ∷ (codes "x-syncer-nonce", encrypted.nonce_hex)
            ∷ (codes "x-syncer-content-hash", codes shared.content_hash)
            ∷ (codes "x-syncer-plaintext-size", display shared.size_bytes)
            ∷ []))
          encrypted_path true)

  -- What is sent; a file is removed afterwards, and a failure of that is ignored.
  unfoldable pub write_response : PeerResponse → Handler F PeerServerError (List ℕ)
  write_response (bytes response) = pure response
  write_response (file header path delete_after_send) = do
    contents ← ask λ d. map_err (filesystem path) (F.contents d.files path)
    λ d. (
      if delete_after_send then record d { files = (F.remove_file d.files path).0 } else d,
      ok (Utf8.bytes header ++ contents),
    )
