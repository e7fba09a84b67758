-- ===== src/Agent/PeerCrypto/Nonces.antt =====
-- The nonces of the chunks of a file in crates/syncer-agent/src/peer_crypto.rs.
use syncer.Prelude.{
  ℕ, zero, suc, ◌+◌, ◌*◌, ◌/◌, ◌%◌, ◌^◌, ◌<◌, ◌≡◌, ◌≢◌, refl, ap, ◌∙◌, List, [], ◌∷◌, ◌++◌, length,
  length-append, arith,
}
use native.Mathlib.Nat.{pow-suc}
use syncer.Agent.PeerCrypto.{be_bytes, chunk_nonce}

-- The value of bytes, the most significant first.
abbrev be_value : ℕ → List ℕ → ℕ
be_value n [] = n
be_value n (b ∷ s) = be_value (n * 256 + b) s

be_value-append : (n b : ℕ) (s : List ℕ) → be_value n (s ++ b ∷ []) ≡ be_value n s * 256 + b
be_value-append n b [] = refl
be_value-append n b (x ∷ s) = be_value-append (n * 256 + x) b s

below_shift : (count n : ℕ) → n < 256 ^ suc count → n / 256 < 256 ^ count
below_shift count n fits =
    let size : n < 256 ^ count * 256 = rw (← pow-suc 256 count) fits in omega arith

be_value-be_bytes : (count n : ℕ) → n < 256 ^ count → be_value 0 (be_bytes count n) ≡ n
unfolding be_bytes
be_value-be_bytes zero n fits = grind arith
be_value-be_bytes (suc count) n fits =
    be_value-append 0 (n % 256) (be_bytes count (n / 256))
    ∙ omega (arith, be_value-be_bytes count (n / 256) (below_shift count n fits))

length-be_bytes : (count n : ℕ) → length (be_bytes count n) ≡ count
unfolding be_bytes
length-be_bytes zero n = refl
length-be_bytes (suc count) n = omega (
  arith,
  length-append (be_bytes count (n / 256)) (n % 256 ∷ []),
  length-be_bytes count (n / 256),
)

append-cancel : (s a b : List ℕ) → s ++ a ≡ s ++ b → a ≡ b
append-cancel [] a b same = same
append-cancel (x ∷ s) a b same = append-cancel s a b (cc)

-- A nonce has 24 bytes for a prefix of 16, and two chunks of a file have different nonces, where
-- the indices are u64 values.
pub chunk_nonce-distinct :
    (prefix : List ℕ) (i j : ℕ)
    → length prefix ≡ 16
    → i < 2 ^ 64
    → j < 2 ^ 64
    → i ≢ j
    → (length (chunk_nonce prefix i) ≡ 24) × (chunk_nonce prefix i ≢ chunk_nonce prefix j)
unfolding chunk_nonce
chunk_nonce-distinct prefix i j size small_i small_j differ = (
  omega (arith, length-append prefix (be_bytes 8 i), length-be_bytes 8 i),
  λ same. absurd (
      differ (
        cc (
          ap (be_value 0) (append-cancel prefix (be_bytes 8 i) (be_bytes 8 j) same),
          be_value-be_bytes 8 i small_i,
          be_value-be_bytes 8 j small_j,
        ))),
)
