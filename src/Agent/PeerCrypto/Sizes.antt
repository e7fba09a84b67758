-- ===== src/Agent/PeerCrypto/Sizes.antt =====
-- The lengths that crates/syncer-agent/src/peer_crypto.rs reads and writes.
use syncer.Prelude.{
  ℕ, zero, suc, ◌+◌, ◌-◌, ◌*◌, ◌≤◌, min, ◌≡◌, true, List, [], ok, >>=-eq-ok, guard-eq-ok,
  ok_or-eq-ok, guard, map_err, leb, ◌==◌, nat_eq, if◌then◌else◌, length, length-append, arith,
}
use syncer.Prelude.Lists.{length-split_at}
use syncer.Prelude.Words.{u64_max, saturating_add}
use syncer.Prelude.Texts.{Text}
use syncer.Agent.Crates.{AgentCrates, HasAead}
use syncer.Agent.PeerCrypto.{
  Output, FileCipherContext, CryptographicFile, Opening, chunk_size, tag_size, chunk_count,
  encrypted_len, decrypt_file_to_path, derive_key, decode_nonce_prefix, decrypt_chunks,
  decrypt_chunk, decrypt_sized, open_chunk, decrypt, invalid_ciphertext, io, size_overflow,
}

abbrev due : ℕ → ℕ
due remaining = if remaining == 0 then 0 else min remaining chunk_size

le_of_leb : (a b : ℕ) → leb a b ≡ true → a ≤ b
le_of_leb a b h = ground arith

module _ (c : AgentCrates) (key prefix : List ℕ) (context : FileCipherContext) (o : Output)
    (aead : HasAead c) where
  length-open_chunk :
      (i : ℕ) (encrypted plaintext : List ℕ)
      → open_chunk c key prefix context o i encrypted ≡ ok plaintext
      → length plaintext + 16 ≡ length encrypted
  unfolding open_chunk
  length-open_chunk i encrypted plaintext opened =
      let (checked, enough, rest) =
        >>=-eq-ok (guard (leb 16 (length encrypted)) invalid_ciphertext) _ opened in
      let fits : 16 ≤ length encrypted =
        le_of_leb 16 (length encrypted)
          (guard-eq-ok (leb 16 (length encrypted)) invalid_ciphertext enough) in
      let (front, back) = length-split_at (length encrypted - 16) encrypted (omega arith) in
      let size = aead.length-unseal _ _ _ _ _ (ok_or-eq-ok decrypt _ rest) in
      omega (arith, fits, front, size)

  decrypt_sized-lengths :
      (size i : ℕ) (s : Opening) {s' : Opening}
      → decrypt_sized c key prefix context o size i s ≡ ok s'
      → (s'.remaining ≡ s.remaining - size)
        × (saturating_add size 16 + length s'.input ≡ length s.input)
        × (length s'.written + 16 ≡ length s.written + saturating_add size 16)
  unfolding decrypt_sized
  decrypt_sized-lengths size i s {s'} done =
      let (small, checked, after_size) =
        >>=-eq-ok (guard (leb (saturating_add size tag_size) u64_max) size_overflow) _ done in
      let (long, enough, after_length) =
        >>=-eq-ok
          (guard (leb (saturating_add size tag_size) (length s.input))
            (io "failed to fill whole buffer"))
          _ after_size in
      let fits : saturating_add size 16 ≤ length s.input =
        le_of_leb (saturating_add size 16) (length s.input) (guard-eq-ok _ _ enough) in
      let (front, back) = length-split_at (saturating_add size 16) s.input fits in
      let (plaintext, opened, after_open) =
        >>=-eq-ok (open_chunk c key prefix context o i _) _ after_length in
      let size_read = length-open_chunk i _ plaintext opened in
      let (stored, wrote, last) = >>=-eq-ok (map_err io (o.write_chunk i)) _ after_open in
      ground (arith, last, front, back, size_read, length-append s.written plaintext)

  decrypt_chunks-lengths :
      (rounds i : ℕ) (s : Opening) {s' : Opening}
      → s.remaining ≤ rounds * (64 * 1024)
      → decrypt_chunks c key prefix context o rounds i s ≡ ok s'
      → (s.remaining + 16 * rounds + length s'.input ≡ length s.input)
        × (length s'.written ≡ length s.written + s.remaining)
  unfolding decrypt_chunks
  decrypt_chunks-lengths zero i s enough done = ground arith
  decrypt_chunks-lengths (suc rounds) i s {s'} enough done =
      let (t, first, rest) = >>=-eq-ok (decrypt_chunk c key prefix context o i s) _ done in
      let (left, read, wrote) =
        decrypt_sized-lengths (due s.remaining) i s (unfold decrypt_chunk in first) in
      let (all_read, all_written) = decrypt_chunks-lengths rounds (i + 1) t (ground arith) rest in
      ground arith

chunk_count_enough : (n : ℕ) → n ≤ chunk_count n * (64 * 1024)
unfolding chunk_count
chunk_count_enough n = ground arith

pub encrypted_len_lem :
    (n : ℕ) → n + 16 * chunk_count n ≤ u64_max → encrypted_len n ≡ n + 16 * chunk_count n
unfolding encrypted_len
encrypted_len_lem n fits = ground arith

-- What is decrypted has the size that the context names, and the input exactly the length that
-- `encrypted_len` gives for it, where an input of 2^64 bytes does not exist.
pub decrypt_file-sizes :
    (c : AgentCrates) (input : List ℕ) (o : Output) (secret_hex nonce_hex : Text)
    (context : FileCipherContext) {file : CryptographicFile} {plaintext : List ℕ}
    → HasAead c
    → length input ≤ u64_max
    → decrypt_file_to_path c (ok input) o secret_hex nonce_hex context ≡ ok (file, plaintext)
    → (length plaintext ≡ context.plaintext_size)
      × (file.size_bytes ≡ context.plaintext_size)
      × (length input ≡ encrypted_len context.plaintext_size)
unfolding decrypt_file_to_path
decrypt_file-sizes c input o secret_hex nonce_hex context {file} {plaintext} aead real done =
    let (key, derived, after_key) = >>=-eq-ok (derive_key c secret_hex) _ done in
    let (prefix, decoded, after_prefix) = >>=-eq-ok (decode_nonce_prefix c nonce_hex) _ after_key in
    let (created, made, after_create) = >>=-eq-ok (map_err io o.create) _ after_prefix in
    let (s, opened, after_loop) =
      >>=-eq-ok
        (decrypt_chunks c key prefix context o (chunk_count context.plaintext_size) 0
          (record { remaining = context.plaintext_size; input = input; hashed = []; written = [] }))
        _ after_create in
    let (checked, empty, after_check) =
      >>=-eq-ok (guard (length s.input == 0) invalid_ciphertext) _ after_loop in
    let (stored, synced, last) = >>=-eq-ok (map_err io o.sync_all) _ after_check in
    let (read, wrote) =
      decrypt_chunks-lengths c key prefix context o aead (chunk_count context.plaintext_size) 0 _
        (chunk_count_enough context.plaintext_size) opened in
    let none_left = guard-eq-ok (length s.input == 0) invalid_ciphertext empty in
    ground (arith, last, read, wrote, none_left, encrypted_len_lem context.plaintext_size)
