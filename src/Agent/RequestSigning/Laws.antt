-- ===== src/Agent/RequestSigning/Laws.antt =====
-- What a signature of crates/syncer-agent/src/request_signing.rs vouches for.
use syncer.Prelude.{
  ℕ, ◌≡◌, ◌≢◌, ◌↔◌, refl, ap, Option, none, some, List, [], ◌∷◌, ◌++◌, Result, ok, ◌>>=◌, guard,
  ok_or, map_err, map_err-eq-ok, >>=-eq-ok, arith, All, suc,
}
use syncer.Prelude.Words.{ℤ, pos, negsuc}
use syncer.Prelude.Texts.{Text}
use syncer.Prelude.Utf8.{bytes}
use syncer.Prelude.Decimal.{display_i64, parse_i64}
use syncer.Prelude.Decimal.Laws.{IsDigit, IsI64, display-IsDigit, parse_i64-display}
use syncer.Agent.Crates.{AgentCrates, HexRoundTrips, VerifiesByComparison}
use syncer.Agent.RequestSigning.{
  SigningError, hex, invalid_secret, invalid_signature, canonical_payload_with_body_hash_hex,
  sign_request_with_body_hash_hex, verify_request_signature_with_body_hash_hex,
}

abbrev pub IsOneLine : Text → Type 0
IsOneLine = All (λ c. c ≢ b'\n')

IsOneLine-IsDigit : (s : Text) → All IsDigit s → IsOneLine s
IsOneLine-IsDigit [] all_digits = tt
IsOneLine-IsDigit (c ∷ s) (one, all_digits) = (ground arith, IsOneLine-IsDigit s all_digits)

display_i64-IsOneLine : (t : ℤ) → IsOneLine (display_i64 t)
unfolding display_i64
display_i64-IsOneLine (pos n) = IsOneLine-IsDigit _ (display-IsDigit n)
display_i64-IsOneLine (negsuc n) = (omega arith, IsOneLine-IsDigit _ (display-IsDigit (suc n)))

split_line :
    (a b s t : Text)
    → IsOneLine a
    → IsOneLine b
    → a ++ b'\n' ∷ s ≡ b ++ b'\n' ∷ t
    → (a ≡ b) × (s ≡ t)
split_line [] [] s t p q same = (refl, ground arith)
split_line [] (y ∷ b) s t p q same = ground arith
split_line (x ∷ a) [] s t p q same = ground arith
split_line (x ∷ a) (y ∷ b) s t p q same = ground (arith, split_line a b s t p.1 q.1)

-- A number that fits is the only one with its print.
display_i64-injective : (t u : ℤ) → IsI64 t → IsI64 u → display_i64 t ≡ display_i64 u → t ≡ u
display_i64-injective t u p q same =
    cc (parse_i64-display t p, parse_i64-display u q, ap parse_i64 same)

-- The five parts of a request that a signature covers.
pub record Signed : Type 0 where
  pub method : Text
  pub path : Text
  pub device_id : Text
  pub timestamp_unix : ℤ
  pub body_hash_hex : Text

abbrev pub payload_of : Signed → Text
payload_of r =
    canonical_payload_with_body_hash_hex r.method r.path r.device_id r.timestamp_unix
      r.body_hash_hex

pub record IsSignable (r : Signed) : Type 0 where
  pub method_line : IsOneLine r.method
  pub path_line : IsOneLine r.path
  pub device_line : IsOneLine r.device_id
  pub timestamp_range : IsI64 r.timestamp_unix

-- Two requests with the same canonical payload are the same in method, path, device, time and body
-- hash, where the first three are single lines and the times are i64 values.
pub canonical_payload-injective :
    (r s : Signed) → IsSignable r → IsSignable s → payload_of r ≡ payload_of s → r ≡ s
unfolding canonical_payload_with_body_hash_hex
canonical_payload-injective r s p q same =
    let (methods, after_method) =
      split_line r.method s.method _ _ p.method_line q.method_line same in
    let (paths, after_path) = split_line r.path s.path _ _ p.path_line q.path_line after_method in
    let (devices, after_device) =
      split_line r.device_id s.device_id _ _ p.device_line q.device_line after_path in
    let (times, hashes) =
      split_line (display_i64 r.timestamp_unix) (display_i64 s.timestamp_unix) _ _
        (display_i64-IsOneLine r.timestamp_unix) (display_i64-IsOneLine s.timestamp_unix)
        after_device in
    let instants =
      display_i64-injective r.timestamp_unix s.timestamp_unix p.timestamp_range q.timestamp_range
        times in
    λ i. record {
      method = methods i;
      path = paths i;
      device_id = devices i;
      timestamp_unix = instants i;
      body_hash_hex = hashes i;
    }

verified_iff :
    (c : AgentCrates) (code : Option (List ℕ)) (received : List ℕ)
    → VerifiesByComparison c
    → ((ok_or invalid_secret code >>= λ made.
          guard (c.verify_slice made received) invalid_signature)
        ≡ ok tt)
      ↔ (code ≡ some received)
verified_iff c none received compares = (λ h. cc, λ h. cc)
verified_iff c (some made) received compares =
    (λ h. ground (arith, compares made received), λ h. ground (arith, compares made received))

module _ (c : AgentCrates) (method path device_id : Text) (time : ℤ)
    (body_hash secret_hex : Text) where
  abbrev sign : Result SigningError Text
  sign = sign_request_with_body_hash_hex c method path device_id time body_hash secret_hex

  abbrev verify : Text → Result SigningError (Unit {0})
  verify signature =
      verify_request_signature_with_body_hash_hex c signature method path device_id time body_hash
        secret_hex

  -- A signature that signing gives is accepted for the same request and secret.
  pub verify-sign :
      HexRoundTrips c
      → VerifiesByComparison c
      → (signature : Text) → sign ≡ ok signature
      → verify signature ≡ ok tt
  unfolding sign_request_with_body_hash_hex verify_request_signature_with_body_hash_hex
  verify-sign hexes compares signature signed =
      let message =
        bytes (canonical_payload_with_body_hash_hex method path device_id time body_hash) in
      let (secret, decoded, coded) = >>=-eq-ok (map_err hex (c.hex_decode secret_hex)) _ signed in
      let (code, made, written) =
        >>=-eq-ok (ok_or invalid_secret (c.hmac_sha256 secret message)) _ coded in
      ground (arith, decoded, made, written, hexes code, compares code code)

  abbrev message : List ℕ
  message = bytes (canonical_payload_with_body_hash_hex method path device_id time body_hash)

  -- The secret and the signature decode, and the signature's bytes are the code of the payload.
  abbrev IsCode : Text → Type 0
  IsCode signature =
      (secret : List ℕ) × (received : List ℕ) × (c.hex_decode secret_hex ≡ ok secret)
      × (c.hex_decode signature ≡ ok received)
      × (c.hmac_sha256 secret message ≡ some received)

  verify-IsCode :
      VerifiesByComparison c → (signature : Text) → verify signature ≡ ok tt → IsCode signature
  unfolding verify_request_signature_with_body_hash_hex
  verify-IsCode compares signature accepted =
      let (secret, decoded, r1) = >>=-eq-ok (map_err hex (c.hex_decode secret_hex)) _ accepted in
      let (received, read, r2) = >>=-eq-ok (map_err hex (c.hex_decode signature)) _ r1 in
      (
        secret,
        received,
        map_err-eq-ok hex _ decoded,
        map_err-eq-ok hex _ read,
        (verified_iff c (c.hmac_sha256 secret message) received compares).0 r2,
      )

  IsCode-verify :
      VerifiesByComparison c → (signature : Text) → IsCode signature → verify signature ≡ ok tt
  unfolding verify_request_signature_with_body_hash_hex
  IsCode-verify compares signature (secret, received, decoded, read, made) =
      rw decoded
        (rw read ((verified_iff c (c.hmac_sha256 secret message) received compares).1 made))

  -- A signature is accepted exactly when the secret and the signature are hexadecimal and the signature's
  -- bytes are the code of the payload under the secret; any other signature or secret is an error.
  pub verify_iff :
      VerifiesByComparison c
      → (signature : Text)
      → (verify_request_signature_with_body_hash_hex c signature method path device_id time
            body_hash secret_hex
          ≡ ok tt)
        ↔ ((secret : List ℕ) × (received : List ℕ) × (c.hex_decode secret_hex ≡ ok secret)
            × (c.hex_decode signature ≡ ok received)
            × (c.hmac_sha256 secret (
                  bytes (canonical_payload_with_body_hash_hex method path device_id time body_hash))
                ≡ some received))
  verify_iff compares signature =
      (verify-IsCode compares signature, IsCode-verify compares signature)
