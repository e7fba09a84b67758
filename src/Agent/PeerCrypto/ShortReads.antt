-- ===== src/Agent/PeerCrypto/ShortReads.antt =====
-- Encryption in crates/syncer-agent/src/peer_crypto.rs of a file whose reads do not fill the buffer.
use syncer.Prelude.{
  ℕ, ◌+◌, ◌*◌, ◌≤◌, ◌≡◌, ◌≢◌, List, [], ◌∷◌, map, ok, length, length-append, arith,
}
use syncer.Prelude.Lists.{concat}
use syncer.Prelude.Words.{u64_max}
use syncer.Prelude.Texts.{Text}
use syncer.Agent.Crates.{AgentCrates, HasAead}
use syncer.Agent.PeerCrypto.{
  Output, FileCipherContext, CryptographicFile, chunk_count, encrypt_file_to_path,
  decrypt_file_to_path,
}
use syncer.Agent.PeerCrypto.Spec.{NeverFails, AreReads, sealed, sealed_chunk, length-sealed_chunk}
use syncer.Agent.PeerCrypto.RoundTrip.{IsTransfer, key, encrypt_file_lem}
use syncer.Agent.PeerCrypto.Sizes.{decrypt_file-sizes, encrypted_len_lem}

module _ (c : AgentCrates) (key prefix : List ℕ) (context : FileCipherContext)
    (aead : HasAead c) where
  length-sealed :
      (i : ℕ) (chunks : List (List ℕ))
      → AreReads chunks
      → length (sealed c key prefix context i chunks) ≡ length (concat chunks) + 16 * length chunks
  unfolding sealed
  length-sealed i [] reads = omega arith
  length-sealed i (chunk ∷ chunks) reads = omega (
    arith,
    length-append (sealed_chunk c key prefix context i chunk)
        (sealed c key prefix context (i + 1) chunks),
    length-sealed_chunk c key prefix context aead i chunk reads.0.1,
    length-sealed (i + 1) chunks reads.1,
    length-append chunk (concat chunks),
  )

-- Where a file arrives in more reads than it has chunks, encryption still succeeds and reports the
-- length `encrypted_len`, but what it wrote is longer, and no decryption with the context accepts it.
pub encrypt_file-short_reads :
    (c : AgentCrates) (secret_hex : Text) (prefix : List ℕ) (context : FileCipherContext)
    (chunk : List ℕ) (chunks : List (List ℕ)) (o : Output)
    → HasAead c
    → IsTransfer c secret_hex prefix context (chunk ∷ chunks)
    → AreReads (chunk ∷ chunks)
    → NeverFails o
    → context.plaintext_size + 16 * length (chunk ∷ chunks) ≤ u64_max
    → chunk_count context.plaintext_size + 1 ≤ length (chunk ∷ chunks)
    → (file : CryptographicFile) × (ciphertext : List ℕ) × (encrypt_file_to_path c
          (ok (map ok (chunk ∷ chunks)))
          o
          secret_hex
          prefix
          context
        ≡ ok (file, ciphertext))
      × (file.size_bytes + 1 ≤ length ciphertext)
      × ((other : Output) (secret_hex' nonce_hex : Text) (result : CryptographicFile × List ℕ)
          → decrypt_file_to_path c (ok ciphertext) other secret_hex' nonce_hex context ≢ ok result)
encrypt_file-short_reads c secret_hex prefix context chunk chunks o aead t reads fine fits many =
    let code = key c secret_hex prefix context (chunk ∷ chunks) t in
    let size = length-sealed c code prefix context aead 0 (chunk ∷ chunks) reads in
    let reported = encrypted_len_lem context.plaintext_size (omega arith) in
    (
      _,
      sealed c code prefix context 0 (chunk ∷ chunks),
      encrypt_file_lem c secret_hex prefix context (chunk ∷ chunks) t aead o fine reads,
      omega (arith, reported, size, t.size),
      λ other secret_hex' nonce_hex result accepted.
          let (long, stated, exact) =
            decrypt_file-sizes c _ other secret_hex' nonce_hex context aead
              (omega (arith, size, t.size)) accepted in
          omega (arith, exact, reported, size, t.size),
    )
