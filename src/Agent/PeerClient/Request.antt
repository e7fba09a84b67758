-- ===== src/Agent/PeerClient/Request.antt =====
-- crates/syncer-agent/src/peer_client.rs: the heads of requests.
use syncer.Prelude.{ℕ, ◌∷◌, ◌++◌, List, [], Result, ok, ◌>>=◌, map_err, length}
use syncer.Prelude.Decimal.{display, display_i64}
use syncer.Prelude.Texts.{Text, codes}
use syncer.Prelude.Words.{ℤ}
use syncer.Agent.Crates.{AgentCrates}
use syncer.Agent.PeerClient.{PeerClientError, signing}
use syncer.Agent.PeerClient.Address.{parse_address}
use syncer.Agent.PeerCrypto.{CryptographicFile, encryption_algorithm}
use syncer.Agent.PeerServer.Response.{header_lines}
use syncer.Agent.RequestSigning.{sign_request, sign_request_with_body_hash_hex}

pub record PeerRequest : Type 0 where
  pub method : Text
  pub endpoint : Text
  pub path : Text
  pub device_id : Text
  pub shared_secret_hex : Text
  pub body : List ℕ
  pub extra_headers : List (Text × Text)
  pub response_limit_bytes : ℕ

-- The request line and the headers of a signed request.
unfoldable pub request_head : Text → Text → Text → Text → ℤ → Text → ℕ → List (Text × Text) → Text
unfolding header_lines display display_i64
request_head method path host device_id timestamp signature content_length extra_headers =
    method
    ++ (codes " "
        ++ (path
            ++ (codes " HTTP/1.1\r\n"
                ++ (header_lines (
                      (codes "host", host)
                      ∷ (codes "x-syncer-device-id", device_id)
                      ∷ (codes "x-syncer-timestamp", display_i64 timestamp)
                      ∷ (codes "x-syncer-signature", signature)
                      ∷ (codes "content-type", codes "application/octet-stream")
                      ∷ (codes "content-length", display content_length)
                      ∷ [])
                    ++ (header_lines extra_headers ++ codes "connection: close\r\n\r\n")))))

module _ (c : AgentCrates) (timestamp : ℤ) where
  unfoldable pub signed_request_header : PeerRequest → Result PeerClientError Text
  unfolding parse_address sign_request request_head
  signed_request_header request = do
    address ← parse_address request.endpoint
    signature ← map_err signing (
        sign_request c request.method request.path request.device_id timestamp request.body
          request.shared_secret_hex)
    ok (
        request_head request.method request.path address.host request.device_id timestamp signature
          (length request.body) request.extra_headers)

  -- The head that `put_file_from_path` sends, for the encrypted file and the hash of its bytes.
  unfoldable pub put_request_header :
      Text → Text → Text → Text → Text → Text → ℕ → CryptographicFile → Result PeerClientError Text
  unfolding parse_address sign_request_with_body_hash_hex request_head display
  put_request_header endpoint request_path device_id shared_secret_hex body_sha256_hex content_hash
        size_bytes encrypted_file =
      do
        signature ← map_err signing (
            sign_request_with_body_hash_hex c (codes "PUT") request_path device_id timestamp
              body_sha256_hex shared_secret_hex)
        address ← parse_address endpoint
        ok (
            request_head (codes "PUT") request_path address.host device_id timestamp signature
              encrypted_file.size_bytes
              ((codes "x-syncer-content-hash", content_hash)
                ∷ (codes "x-syncer-file-size", display size_bytes)
                ∷ (codes "x-syncer-encryption", encryption_algorithm)
                ∷ (codes "x-syncer-nonce", encrypted_file.nonce_hex)
                ∷ []))
