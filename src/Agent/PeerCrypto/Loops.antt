-- ===== src/Agent/PeerCrypto/Loops.antt =====
-- The loops of crates/syncer-agent/src/peer_crypto.rs on a file whose reads fill the buffer.
use syncer.Prelude.{
  ℕ, ◌+◌, ◌*◌, ◌≤◌, ◌<◌, min, ◌≡◌, refl, sym, ap, ◌∙◌, List, [], ◌∷◌, ◌++◌, map, ok, ◌==◌, nat_eq,
  if◌then◌else◌, length, length-append, arith,
}
use mathlib.Core.List.{append_assoc, append-nil}
use syncer.Prelude.Lists.{concat}
use syncer.Prelude.Words.{u64_max, saturating_sub}
use syncer.Agent.Crates.{AgentCrates, HasAead}
use syncer.Agent.PeerCrypto.{
  Output, FileCipherContext, Sealing, chunk_size, chunk_count, encrypt_chunk, encrypt_chunks,
  encrypt_end, decrypt_chunks,
}
use syncer.Agent.PeerCrypto.Spec.{
  NeverFails, AreReads, AreFull, AreReads-AreFull, rounds, chunk_count-full, sealed_chunk, sealed,
  encrypt_chunk_lem, decrypt_chunk_lem,
}

rest_of_full : (chunk : List ℕ) (chunks : List (List ℕ)) → AreFull (chunk ∷ chunks) → AreFull chunks
rest_of_full chunk [] full = tt
rest_of_full chunk (next ∷ chunks) full = full.1

-- How much the round for the first chunk takes, and what is left.
due_of_full :
    (chunk : List ℕ) (chunks : List (List ℕ))
    → AreFull (chunk ∷ chunks)
    → let remaining = length (concat (chunk ∷ chunks)) in
      ((if remaining == 0 then 0 else min remaining chunk_size) ≡ length chunk)
      × (saturating_sub remaining (length chunk) ≡ length (concat chunks))
due_of_full chunk [] full = ground (arith, length-append chunk [])
due_of_full chunk (next ∷ chunks) full =
    ground (arith, length-append chunk (concat (next ∷ chunks)))

abbrev pub start : Sealing
start = record { processed = 0; hashed = []; chunk_index = 0; written = [] }

module _ (c : AgentCrates) (key prefix : List ℕ) (context : FileCipherContext) where
  abbrev pub after_chunk : Sealing → List ℕ → Sealing
  after_chunk s chunk = record {
    processed = s.processed + length chunk;
    hashed = s.hashed ++ chunk;
    chunk_index = s.chunk_index + 1;
    written = s.written ++ sealed_chunk c key prefix context s.chunk_index chunk;
  }

  abbrev pub after : Sealing → List (List ℕ) → Sealing
  after s [] = s
  after s (chunk ∷ chunks) = after (after_chunk s chunk) chunks

  pub after-fields :
      (chunks : List (List ℕ)) (s : Sealing)
      → ((after s chunks).processed ≡ s.processed + length (concat chunks))
        × ((after s chunks).hashed ≡ s.hashed ++ concat chunks)
        × ((after s chunks).chunk_index ≡ s.chunk_index + length chunks)
        × ((after s chunks).written ≡ s.written ++ sealed c key prefix context s.chunk_index chunks)
  unfolding sealed
  after-fields [] s = (omega arith, sym (append-nil _), omega arith, sym (append-nil _))
  after-fields (chunk ∷ chunks) s =
      let (p, h, i, w) = after-fields chunks (after_chunk s chunk) in
      (
        p ∙ omega (arith, length-append chunk (concat chunks)),
        h ∙ append_assoc s.hashed chunk (concat chunks),
        i ∙ omega arith,
        w ∙ append_assoc s.written _ _,
      )

  module _ (aead : HasAead c) (o : Output) (fine : NeverFails o) where
    encrypt_chunk-after :
        (chunk : List ℕ) (s : Sealing)
        → length chunk ≤ 64 * 1024
        → s.processed + length chunk ≤ u64_max
        → s.chunk_index + 1 ≤ u64_max
        → encrypt_chunk c key prefix context o chunk s ≡ ok (after_chunk s chunk)
    encrypt_chunk-after chunk s fits size index =
        encrypt_chunk_lem c key prefix context aead o fine chunk s fits ∙ ground arith

    encrypt_chunks-after :
        (chunks : List (List ℕ)) (s : Sealing)
        → AreReads chunks
        → s.processed + length (concat chunks) ≤ u64_max
        → s.chunk_index + length chunks ≤ u64_max
        → encrypt_chunks c key prefix context o (map ok chunks) s
          ≡ encrypt_end c key prefix context o (after s chunks)
    unfolding encrypt_chunks
    encrypt_chunks-after [] s reads size index = refl
    encrypt_chunks-after ([] ∷ chunks) s reads size index = absurd (omega arith)
    encrypt_chunks-after ((byte ∷ chunk) ∷ chunks) s reads size index =
        let long = length-append (byte ∷ chunk) (concat chunks) in
        rw (encrypt_chunk-after (byte ∷ chunk) s reads.0.1 (omega arith) (omega arith)) (
          encrypt_chunks-after chunks (after_chunk s (byte ∷ chunk)) reads.1 (omega arith)
            (omega arith))

    -- The rounds of decryption over what encryption wrote.
    decrypt_chunks-sealed :
        (chunks : List (List ℕ)) (i : ℕ) (hashed written : List ℕ)
        → AreFull chunks
        → decrypt_chunks c key prefix context o (length chunks) i (record {
          remaining = length (concat chunks);
          input = sealed c key prefix context i chunks;
          hashed = hashed;
          written = written;
        })
          ≡ ok (record {
            remaining = 0;
            input = [];
            hashed = hashed ++ concat chunks;
            written = written ++ concat chunks;
          })
    unfolding decrypt_chunks sealed
    decrypt_chunks-sealed [] i hashed written full = λ t. ok (record {
      remaining = 0;
      input = [];
      hashed = sym (append-nil hashed) t;
      written = sym (append-nil written) t;
    })
    decrypt_chunks-sealed (chunk ∷ chunks) i hashed written full =
        let (due, left) = due_of_full chunk chunks full in
        rw
          (decrypt_chunk_lem c key prefix context aead o fine i (length (concat (chunk ∷ chunks)))
            chunk (sealed c key prefix context (i + 1) chunks) hashed written
            (AreReads-AreFull (chunk ∷ chunks) full).0.1 due)
          (rw left (
            decrypt_chunks-sealed chunks (i + 1) (hashed ++ chunk) (written ++ chunk)
              (rest_of_full chunk chunks full)
            ∙ λ t. ok (record {
              remaining = 0;
              input = [];
              hashed = append_assoc hashed chunk (concat chunks) t;
              written = append_assoc written chunk (concat chunks) t;
            })))

    encrypt_end_nonempty :
        (s : Sealing) → 0 < context.plaintext_size → encrypt_end c key prefix context o s ≡ ok s
    unfolding encrypt_end
    encrypt_end_nonempty s more = ground arith

    encrypt_end_empty :
        context.plaintext_size ≡ 0
        → encrypt_end c key prefix context o start ≡ encrypt_chunk c key prefix context o [] start
    unfolding encrypt_end
    encrypt_end_empty same = rw same refl

    pub encrypt_chunks-rounds :
        (chunks : List (List ℕ))
        → AreReads chunks
        → context.plaintext_size ≡ length (concat chunks)
        → context.plaintext_size ≤ u64_max
        → length chunks ≤ u64_max
        → encrypt_chunks c key prefix context o (map ok chunks) start
          ≡ ok (after start (rounds chunks))
    encrypt_chunks-rounds [] reads size fits few =
        encrypt_chunks-after [] start tt (omega arith) (omega arith)
        ∙ encrypt_end_empty size
        ∙ encrypt_chunk-after [] start (omega arith) (omega arith) (omega arith)
    encrypt_chunks-rounds (chunk ∷ chunks) reads size fits few =
        encrypt_chunks-after (chunk ∷ chunks) start reads (omega arith) (omega arith)
        ∙ encrypt_end_nonempty _ (omega (arith, length-append chunk (concat chunks)))

    decrypt_chunks-rounds_of :
        (chunks : List (List ℕ))
        → AreFull chunks
        → decrypt_chunks c key prefix context o (chunk_count (length (concat chunks))) 0 (record {
          remaining = length (concat chunks);
          input = sealed c key prefix context 0 (rounds chunks);
          hashed = [];
          written = [];
        })
          ≡ ok (record {
            remaining = 0;
            input = [];
            hashed = concat chunks;
            written = concat chunks;
          })
    unfolding decrypt_chunks sealed
    decrypt_chunks-rounds_of [] full = rw (chunk_count-full [] tt) (
        rw (decrypt_chunk_lem c key prefix context aead o fine 0 0 [] [] [] [] (omega arith) refl)
          refl)
    decrypt_chunks-rounds_of (chunk ∷ chunks) full =
        rw (chunk_count-full (chunk ∷ chunks) full)
          (decrypt_chunks-sealed (chunk ∷ chunks) 0 [] [] full)

    pub decrypt_chunks-rounds :
        (chunks : List (List ℕ))
        → AreFull chunks
        → context.plaintext_size ≡ length (concat chunks)
        → decrypt_chunks c key prefix context o (chunk_count context.plaintext_size) 0 (record {
          remaining = context.plaintext_size;
          input = sealed c key prefix context 0 (rounds chunks);
          hashed = [];
          written = [];
        })
          ≡ ok (record {
            remaining = 0;
            input = [];
            hashed = concat chunks;
            written = concat chunks;
          })
    decrypt_chunks-rounds chunks full size =
        ap
          (λ (n : ℕ). decrypt_chunks c key prefix context o (chunk_count n) 0 (record {
            remaining = n;
            input = sealed c key prefix context 0 (rounds chunks);
            hashed = [];
            written = [];
          }))
          size
        ∙ decrypt_chunks-rounds_of chunks full
