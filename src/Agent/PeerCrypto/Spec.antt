-- ===== src/Agent/PeerCrypto/Spec.antt =====
-- What the chunks of crates/syncer-agent/src/peer_crypto.rs are, said without the loops, and what one
-- round of each loop does.
use syncer.Prelude.{
  ℕ, suc, ◌+◌, ◌-◌, ◌*◌, ◌≤◌, ◌<◌, min, ◌≡◌, refl, ap, ◌∙◌, List, [], ◌∷◌, ◌++◌, none, some, true,
  ok, leb, ◌==◌, nat_eq, if◌then◌else◌, length, length-append, All, arith,
}
use syncer.Prelude.Lists.{split_at-append, concat}
use syncer.Prelude.Words.{u64_max, saturating_add, saturating_sub}
use syncer.Prelude.Utf8.{bytes}
use syncer.Agent.Crates.{AgentCrates, HasAead}
use syncer.Agent.PeerCrypto.{
  Output, FileCipherContext, Sealing, chunk_size, chunk_nonce, chunk_aad, chunk_count,
  encrypt_chunk, decrypt_chunk, decrypt_sized, open_chunk, tag_size,
}

-- No step of writing the file fails.
pub record NeverFails (o : Output) : Type 0 where
  pub created : o.create ≡ ok tt
  pub chunk_written : (n : ℕ) → o.write_chunk n ≡ ok tt
  pub tag_written : (n : ℕ) → o.write_tag n ≡ ok tt
  pub synced : o.sync_all ≡ ok tt

-- Reads that give something, and no more than the buffer holds.
abbrev pub AreReads : List (List ℕ) → Type 0
AreReads = All (λ chunk. (0 < length chunk) × (length chunk ≤ 64 * 1024))

-- Reads that fill the buffer, except for the last.
abbrev pub AreFull : List (List ℕ) → Type 0
AreFull [] = Unit
AreFull (chunk ∷ []) = (0 < length chunk) × (length chunk ≤ 64 * 1024)
AreFull (chunk ∷ next ∷ rest) = (length chunk ≡ 64 * 1024) × AreFull (next ∷ rest)

pub AreReads-AreFull : (chunks : List (List ℕ)) → AreFull chunks → AreReads chunks
AreReads-AreFull [] full = tt
AreReads-AreFull (chunk ∷ []) full = (full, tt)
AreReads-AreFull (chunk ∷ next ∷ rest) full =
    ((omega arith, omega arith), AreReads-AreFull (next ∷ rest) full.1)

-- The chunks that are encrypted: an empty file has an empty one.
abbrev pub rounds : List (List ℕ) → List (List ℕ)
rounds [] = [] ∷ []
rounds (chunk ∷ chunks) = chunk ∷ chunks

leb_of_le : (a b : ℕ) → a ≤ b → leb a b ≡ true
leb_of_le a b h = ground arith

drop_tag : (n : ℕ) → n + 16 - 16 ≡ n
drop_tag n = omega arith

saturated : (n : ℕ) → n ≤ 64 * 1024 → saturating_add n tag_size ≡ n + 16
saturated n fits = ground arith

chunk_count_one : (n : ℕ) → n ≤ 64 * 1024 → chunk_count n ≡ 1
unfolding chunk_count
chunk_count_one n fits = ground arith

chunk_count_more : (n : ℕ) → 0 < n → chunk_count (64 * 1024 + n) ≡ suc (chunk_count n)
unfolding chunk_count
chunk_count_more n more = ground arith

length-concat-pos :
    (chunk : List ℕ) (rest : List (List ℕ))
    → AreFull (chunk ∷ rest)
    → 0 < length (concat (chunk ∷ rest))
length-concat-pos chunk [] full = omega (arith, length-append chunk [])
length-concat-pos chunk (next ∷ rest) full =
    omega (arith, length-append chunk (concat (next ∷ rest)))

pub chunk_count-full :
    (chunks : List (List ℕ))
    → AreFull chunks
    → chunk_count (length (concat chunks)) ≡ length (rounds chunks)
chunk_count-full [] full = chunk_count_one 0 (omega arith)
chunk_count-full (chunk ∷ []) full =
    chunk_count_one (length (chunk ++ [])) (omega (arith, length-append chunk []))
chunk_count-full (chunk ∷ next ∷ rest) full =
    ap chunk_count (
      length-append chunk (concat (next ∷ rest))
      ∙ ap (λ n. n + length (concat (next ∷ rest))) full.0)
    ∙ chunk_count_more _ (length-concat-pos next rest full.1)
    ∙ ap suc (chunk_count-full (next ∷ rest) full.1)

module _ (c : AgentCrates) (key prefix : List ℕ) (context : FileCipherContext) where
  pub sealed_chunk : ℕ → List ℕ → List ℕ
  sealed_chunk i chunk =
      elim (c.seal key (chunk_nonce prefix i) (bytes (chunk_aad context i)) chunk) [
        | none ↦ []
        | some (ciphertext, tag) ↦ ciphertext ++ tag
      ]

  unfoldable pub sealed : ℕ → List (List ℕ) → List ℕ
  sealed i [] = []
  sealed i (chunk ∷ chunks) = sealed_chunk i chunk ++ sealed (i + 1) chunks

  module _ (aead : HasAead c) where
    sealed_chunk_lem :
        (i : ℕ) (chunk : List ℕ)
        → length chunk ≤ 64 * 1024
        → (ciphertext : List ℕ) × (tag : List ℕ) × (c.seal key
              (chunk_nonce prefix i)
              (bytes (chunk_aad context i))
              chunk
            ≡ some (ciphertext, tag))
          × (length ciphertext ≡ length chunk)
          × (length tag ≡ 16)
          × (c.unseal key (chunk_nonce prefix i) (bytes (chunk_aad context i)) ciphertext tag
              ≡ some chunk)
          × (sealed_chunk i chunk ≡ ciphertext ++ tag)
    unfolding sealed_chunk
    sealed_chunk_lem i chunk fits =
        let (ciphertext, tag, made, size, tag_length, back) =
          aead.seal_lem key (chunk_nonce prefix i) (bytes (chunk_aad context i)) chunk fits in
        (ciphertext, tag, made, size, tag_length, back, rw (made, sealed_chunk))

    pub length-sealed_chunk :
        (i : ℕ) (chunk : List ℕ)
        → length chunk ≤ 64 * 1024
        → length (sealed_chunk i chunk) ≡ length chunk + 16
    length-sealed_chunk i chunk fits =
        let (ciphertext, tag, made, size, tag_length, back, same) = sealed_chunk_lem i chunk fits in
        rw same (length-append ciphertext tag ∙ omega arith)

    module _ (o : Output) (fine : NeverFails o) where
      pub encrypt_chunk_lem :
          (chunk : List ℕ) (s : Sealing)
          → length chunk ≤ 64 * 1024
          → encrypt_chunk c key prefix context o chunk s
            ≡ ok (record {
              processed = saturating_add s.processed (length chunk);
              hashed = s.hashed ++ chunk;
              chunk_index = saturating_add s.chunk_index 1;
              written = s.written ++ sealed_chunk s.chunk_index chunk;
            })
      unfolding encrypt_chunk
      encrypt_chunk_lem chunk s fits =
          let (ciphertext, tag, made, size, tag_length, back, same) =
            sealed_chunk_lem s.chunk_index chunk fits in
          rw made (
            rw same
              (rw (fine.chunk_written s.chunk_index) (rw (fine.tag_written s.chunk_index) refl)))

      open_chunk_lem :
          (i : ℕ) (chunk : List ℕ)
          → length chunk ≤ 64 * 1024
          → open_chunk c key prefix context o i (sealed_chunk i chunk) ≡ ok chunk
      unfolding open_chunk
      open_chunk_lem i chunk fits =
          let (ciphertext, tag, made, size, tag_length, back, same) =
            sealed_chunk_lem i chunk fits in
          let total : length (ciphertext ++ tag) ≡ length ciphertext + 16 =
            length-append ciphertext tag ∙ omega arith in
          rw same (
            rw total (
              rw (leb_of_le 16 (length ciphertext + 16) (omega arith)) (
                rw (drop_tag (length ciphertext))
                  (rw (split_at-append ciphertext tag) (rw back refl)))))

      pub decrypt_chunk_lem :
          (i remaining : ℕ) (chunk rest hashed written : List ℕ)
          → length chunk ≤ 64 * 1024
          → (if remaining == 0 then 0 else min remaining chunk_size) ≡ length chunk
          → decrypt_chunk c key prefix context o i (record {
            remaining = remaining;
            input = sealed_chunk i chunk ++ rest;
            hashed = hashed;
            written = written;
          })
            ≡ ok (record {
              remaining = saturating_sub remaining (length chunk);
              input = rest;
              hashed = hashed ++ chunk;
              written = written ++ chunk;
            })
      unfolding decrypt_chunk decrypt_sized
      decrypt_chunk_lem i remaining chunk rest hashed written fits due =
          let size = length-sealed_chunk i chunk fits in
          let long : length (sealed_chunk i chunk) ≤ length (sealed_chunk i chunk ++ rest) =
            omega (arith, length-append (sealed_chunk i chunk) rest) in
          rw due (
            rw (saturated (length chunk) fits) (
              rw (← size) (
                rw (leb_of_le (length (sealed_chunk i chunk)) u64_max (omega arith)) (
                  rw (leb_of_le _ _ long) (
                    rw (split_at-append (sealed_chunk i chunk) rest)
                      (rw (open_chunk_lem i chunk fits) (rw (fine.chunk_written i) refl)))))))
