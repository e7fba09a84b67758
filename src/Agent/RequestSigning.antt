-- ===== src/Agent/RequestSigning.antt =====
-- crates/syncer-agent/src/request_signing.rs: the code that authenticates a request between peers.
pub mod Laws
use syncer.Prelude.{
  ℕ, String, Bool, Option, List, [], ◌∷◌, ◌++◌, Result, ok, err, ◌>>=◌, ◌>>◌, guard, ok_or, map_err,
}
use syncer.Prelude.Words.{ℤ}
use syncer.Prelude.Texts.{Text}
use syncer.Prelude.Utf8.{bytes}
use syncer.Prelude.Decimal.{display_i64}
use syncer.Agent.Crates.{AgentCrates}

pub data SigningError : Type 0 where
  hex : String → SigningError
  invalid_secret : SigningError
  invalid_signature : SigningError

-- The lines "{method}\n{path}\n{device_id}\n{timestamp_unix}\n{body_hash_hex}".
unfoldable pub canonical_payload_with_body_hash_hex : Text → Text → Text → ℤ → Text → Text
canonical_payload_with_body_hash_hex method path device_id timestamp_unix body_hash_hex =
    method
    ++ b'\n'
      ∷ (path
          ++ b'\n' ∷ (device_id ++ b'\n' ∷ (display_i64 timestamp_unix ++ b'\n' ∷ body_hash_hex)))

module _ (c : AgentCrates) where
  unfoldable pub sign_request_with_body_hash_hex :
      Text → Text → Text → ℤ → Text → Text → Result SigningError Text
  unfolding canonical_payload_with_body_hash_hex
  sign_request_with_body_hash_hex method path device_id timestamp_unix body_hash_hex
        shared_secret_hex =
      do
        secret ← map_err hex (c.hex_decode shared_secret_hex)
        code ← ok_or invalid_secret (
            c.hmac_sha256 secret (
              bytes (
                canonical_payload_with_body_hash_hex method path device_id timestamp_unix
                  body_hash_hex)))
        ok (c.hex_encode code)

  unfoldable pub sign_request : Text → Text → Text → ℤ → List ℕ → Text → Result SigningError Text
  unfolding sign_request_with_body_hash_hex
  sign_request method path device_id timestamp_unix body shared_secret_hex =
      sign_request_with_body_hash_hex method path device_id timestamp_unix
        (c.hex_encode (c.sha256 body)) shared_secret_hex

  unfoldable pub verify_request_signature_with_body_hash_hex :
      Text → Text → Text → Text → ℤ → Text → Text → Result SigningError (Unit {0})
  unfolding canonical_payload_with_body_hash_hex
  verify_request_signature_with_body_hash_hex signature_hex method path device_id timestamp_unix
        body_hash_hex shared_secret_hex =
      do
        secret ← map_err hex (c.hex_decode shared_secret_hex)
        signature ← map_err hex (c.hex_decode signature_hex)
        code ← ok_or invalid_secret (
            c.hmac_sha256 secret (
              bytes (
                canonical_payload_with_body_hash_hex method path device_id timestamp_unix
                  body_hash_hex)))
        guard (c.verify_slice code signature) invalid_signature
