-- ===== src/Agent/Crates.antt =====
-- The third-party crates that crates/syncer-agent calls, as parameters, with what it relies on.
use syncer.Prelude.{
  ℕ, String, ◌≡◌, ◌↔◌, ◌≤◌, ◌*◌, Bool, true, Option, some, List, Result, ok, length,
}
use syncer.Prelude.Texts.{Text}
use syncer.Crates.{Crates}

pub record AgentCrates : Type 0 where
  -- the crates of syncer-core
  pub core : Crates
  -- hex: `encode`, and `decode` with the message of its error
  pub hex_encode : List ℕ → Text
  pub hex_decode : Text → Result String (List ℕ)
  -- sha2: `Sha256::digest`
  pub sha256 : List ℕ → List ℕ
  -- hmac: `new_from_slice`, `update` and `finalize`; a refused key gives nothing
  pub hmac_sha256 : List ℕ → List ℕ → Option (List ℕ)
  -- hmac: `verify_slice`, of the code that was computed and the one that was received
  pub verify_slice : List ℕ → List ℕ → Bool
  -- blake3: `derive_key`
  pub derive_key : String → List ℕ → List ℕ
  -- chacha20poly1305: `encrypt_in_place_detached` and `decrypt_in_place_detached`, by key, nonce and
  -- associated data
  pub seal : List ℕ → List ℕ → List ℕ → List ℕ → Option (List ℕ × List ℕ)
  pub unseal : List ℕ → List ℕ → List ℕ → List ℕ → List ℕ → Option (List ℕ)
  -- uuid: `parse_str` and `Display`
  pub parse_uuid : Text → Option ℕ
  pub uuid_text : ℕ → Text
  -- time: `now + Duration::seconds(n)`
  pub add_seconds : ℕ → ℕ → ℕ

-- hex documents that `decode` reads what `encode` writes.
abbrev pub HexRoundTrips : AgentCrates → Type 0
HexRoundTrips c = (bytes : List ℕ) → c.hex_decode (c.hex_encode bytes) ≡ ok bytes

-- hmac documents that `verify_slice` compares the codes.
abbrev pub VerifiesByComparison : AgentCrates → Type 0
VerifiesByComparison c =
    (computed received : List ℕ) → (c.verify_slice computed received ≡ true) ↔ (computed ≡ received)

-- chacha20poly1305 documents a tag of 16 bytes, a ciphertext of the plaintext's length, and that
-- decryption with the same key, nonce and associated data gives the plaintext back.
pub record HasAead (c : AgentCrates) : Type 0 where
  pub seal_lem :
      (key nonce aad plaintext : List ℕ)
      → length plaintext ≤ 64 * 1024
      → (ciphertext : List ℕ) × (tag : List ℕ) × (c.seal key nonce aad plaintext
          ≡ some (ciphertext, tag))
        × (length ciphertext ≡ length plaintext)
        × (length tag ≡ 16)
        × (c.unseal key nonce aad ciphertext tag ≡ some plaintext)
  pub length-unseal :
      (key nonce aad ciphertext tag : List ℕ) {plaintext : List ℕ}
      → c.unseal key nonce aad ciphertext tag ≡ some plaintext
      → length plaintext ≡ length ciphertext
