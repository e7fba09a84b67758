-- ===== src/Agent/PeerCrypto/RoundTrip.antt =====
-- Encryption and decryption of whole files of crates/syncer-agent/src/peer_crypto.rs together.
use syncer.Prelude.{
  ℕ, ◌≤◌, ◌≡◌, refl, ap, ◌∙◌, List, [], ◌∷◌, map, ok, nat_eq, length, length-append, beq_refl,
  arith,
}
use syncer.Prelude.Lists.{concat}
use syncer.Prelude.Words.{u64_max}
use syncer.Prelude.Texts.{Text}
use syncer.Agent.Crates.{AgentCrates, HasAead, HexRoundTrips}
use syncer.Agent.PeerCrypto.{
  Output, FileCipherContext, CryptographicFile, encrypted_len, encrypt_file_to_path,
  decrypt_file_to_path, derive_key, decode_nonce_prefix,
}
use syncer.Agent.PeerCrypto.Spec.{NeverFails, AreReads, AreFull, AreReads-AreFull, rounds, sealed}
use syncer.Agent.PeerCrypto.Loops.{
  start, after, after-fields, encrypt_chunks-rounds, decrypt_chunks-rounds,
}

-- A shared secret and a nonce prefix of the right lengths, and a file in the order of its reads.
pub record IsTransfer (c : AgentCrates) (secret_hex : Text) (prefix : List ℕ)
    (context : FileCipherContext) (chunks : List (List ℕ)) : Type 0 where
  pub secret : List ℕ
  pub decoded : c.hex_decode secret_hex ≡ ok secret
  pub secret_size : length secret ≡ 32
  pub prefix_size : length prefix ≡ 16
  pub size : context.plaintext_size ≡ length (concat chunks)
  pub fits : context.plaintext_size ≤ u64_max

concat-rounds : (chunks : List (List ℕ)) → concat (rounds chunks) ≡ concat chunks
concat-rounds [] = refl
concat-rounds (chunk ∷ chunks) = refl

length-le-concat :
    (chunks : List (List ℕ)) → AreReads chunks → length chunks ≤ length (concat chunks)
length-le-concat [] reads = omega arith
length-le-concat (chunk ∷ chunks) reads =
    omega (arith, length-append chunk (concat chunks), length-le-concat chunks reads.1)

module _ (c : AgentCrates) (secret_hex : Text) (prefix : List ℕ) (context : FileCipherContext)
    (chunks : List (List ℕ)) (t : IsTransfer c secret_hex prefix context chunks) where
  abbrev pub key : List ℕ
  key = c.derive_key "syncer file transfer encryption v1" t.secret

  abbrev pub file_of : ℕ → CryptographicFile
  file_of size_bytes = record {
    size_bytes = size_bytes;
    content_hash = c.core.blake3_hex (concat chunks);
    nonce_hex = c.hex_encode prefix;
  }

  derive_key_lem : derive_key c secret_hex ≡ ok key
  unfolding derive_key
  derive_key_lem = rw t.decoded (rw t.secret_size refl)

  decode_nonce_lem : HexRoundTrips c → decode_nonce_prefix c (c.hex_encode prefix) ≡ ok prefix
  unfolding decode_nonce_prefix
  decode_nonce_lem hexes = rw (hexes prefix) (rw t.prefix_size refl)

  module _ (aead : HasAead c) (o : Output) (fine : NeverFails o) where
    pub encrypt_file_lem :
        AreReads chunks
        → encrypt_file_to_path c (ok (map ok chunks)) o secret_hex prefix context
          ≡ ok (
            file_of (encrypted_len context.plaintext_size),
            sealed c key prefix context 0 (rounds chunks),
          )
    unfolding encrypt_file_to_path
    encrypt_file_lem reads =
        let (processed, hashed, index, written) =
          after-fields c key prefix context (rounds chunks) start in
        let total : (after c key prefix context start (rounds chunks)).processed
            ≡ context.plaintext_size =
          omega (arith, processed, ap length (concat-rounds chunks), t.size) in
        rw derive_key_lem (
          rw
            (encrypt_chunks-rounds c key prefix context aead o fine chunks reads t.size t.fits
              (omega (arith, t.size, t.fits, length-le-concat chunks reads)))
            (rw fine.created (
              rw fine.synced (
                rw total (
                  rw (beq_refl context.plaintext_size)
                    (rw (hashed ∙ concat-rounds chunks) (rw written refl)))))))

    decrypt_file_lem :
        HexRoundTrips c
        → AreFull chunks
        → decrypt_file_to_path c
            (ok (sealed c key prefix context 0 (rounds chunks)))
            o
            secret_hex
            (c.hex_encode prefix)
            context
          ≡ ok (file_of context.plaintext_size, concat chunks)
    unfolding decrypt_file_to_path
    decrypt_file_lem hexes full = rw derive_key_lem (
        rw (decode_nonce_lem hexes) (
          rw (decrypt_chunks-rounds c key prefix context aead o fine chunks full t.size)
            (rw fine.created (rw fine.synced refl))))

-- A file that is encrypted and decrypted comes back, with its hash, where the reads fill the buffer
-- up to the last, the secret has 32 bytes, the size in the context is that of the file, and neither
-- file fails to be written; the ciphertext that arises is the one that is decrypted.
pub decrypt_file-encrypt :
    (c : AgentCrates) (secret_hex : Text) (prefix : List ℕ) (context : FileCipherContext)
    (chunks : List (List ℕ)) (o o' : Output)
    → HasAead c
    → HexRoundTrips c
    → IsTransfer c secret_hex prefix context chunks
    → AreFull chunks
    → NeverFails o
    → NeverFails o'
    → (ciphertext : List ℕ) × (encrypt_file_to_path c
          (ok (map ok chunks))
          o
          secret_hex
          prefix
          context
        ≡ ok (
          record {
            size_bytes = encrypted_len context.plaintext_size;
            content_hash = c.core.blake3_hex (concat chunks);
            nonce_hex = c.hex_encode prefix;
          },
          ciphertext,
        ))
      × (decrypt_file_to_path c (ok ciphertext) o' secret_hex (c.hex_encode prefix) context
          ≡ ok (
            record {
              size_bytes = context.plaintext_size;
              content_hash = c.core.blake3_hex (concat chunks);
              nonce_hex = c.hex_encode prefix;
            },
            concat chunks,
          ))
decrypt_file-encrypt c secret_hex prefix context chunks o o' aead hexes t full fine fine' = (
  sealed c (key c secret_hex prefix context chunks t) prefix context 0 (rounds chunks),
  encrypt_file_lem c secret_hex prefix context chunks t aead o fine (AreReads-AreFull chunks full),
  decrypt_file_lem c secret_hex prefix context chunks t aead o' fine' hexes full,
)
