-- ===== src/Agent/PeerCrypto/Hashes.antt =====
-- The hash that decryption in crates/syncer-agent/src/peer_crypto.rs reports.
use syncer.Prelude.{
  ℕ, zero, suc, ◌+◌, ◌≡◌, refl, ap, ◌∙◌, sym, List, [], ◌++◌, ok, >>=-eq-ok, ok_injective, guard,
  map_err, leb, if◌then◌else◌, min, ◌==◌, nat_eq, length,
}
use syncer.Prelude.Lists.{split_at}
use syncer.Prelude.Words.{u64_max, saturating_add}
use syncer.Prelude.Texts.{Text}
use syncer.Agent.Crates.{AgentCrates}
use syncer.Agent.PeerCrypto.{
  Output, FileCipherContext, CryptographicFile, Opening, tag_size, chunk_size, chunk_count,
  decrypt_file_to_path, derive_key, decode_nonce_prefix, decrypt_chunks, decrypt_chunk,
  decrypt_sized, open_chunk, invalid_ciphertext, io, size_overflow,
}

module _ (c : AgentCrates) (key prefix : List ℕ) (context : FileCipherContext) (o : Output) where
  decrypt_sized-hashed :
      (size i : ℕ) (s : Opening) {s' : Opening}
      → decrypt_sized c key prefix context o size i s ≡ ok s'
      → s.hashed ≡ s.written
      → s'.hashed ≡ s'.written
  unfolding decrypt_sized
  decrypt_sized-hashed size i s {s'} done same =
      let (small, checked, after_size) =
        >>=-eq-ok (guard (leb (saturating_add size tag_size) u64_max) size_overflow) _ done in
      let (long, enough, after_length) =
        >>=-eq-ok
          (guard (leb (saturating_add size tag_size) (length s.input))
            (io "failed to fill whole buffer"))
          _ after_size in
      let (plaintext, opened, after_open) =
        >>=-eq-ok
          (open_chunk c key prefix context o i (split_at (saturating_add size tag_size) s.input).0)
          _ after_length in
      let (stored, wrote, last) = >>=-eq-ok (map_err io (o.write_chunk i)) _ after_open in
      let end = ok_injective _ s' last in
      sym (ap (λ (s : Opening). s.hashed) end)
      ∙ ap (λ h. h ++ plaintext) same
      ∙ ap (λ (s : Opening). s.written) end

  decrypt_chunks-hashed :
      (rounds i : ℕ) (s : Opening) {s' : Opening}
      → decrypt_chunks c key prefix context o rounds i s ≡ ok s'
      → s.hashed ≡ s.written
      → s'.hashed ≡ s'.written
  unfolding decrypt_chunks decrypt_chunk
  decrypt_chunks-hashed zero i s {s'} done same =
      let end = ok_injective s s' done in
      sym (ap (λ (s : Opening). s.hashed) end) ∙ same ∙ ap (λ (s : Opening). s.written) end
  decrypt_chunks-hashed (suc rounds) i s {s'} done same =
      let (t, first, rest) = >>=-eq-ok (decrypt_chunk c key prefix context o i s) _ done in
      decrypt_chunks-hashed rounds (i + 1) t rest (
        decrypt_sized-hashed (if s.remaining == 0 then 0 else min s.remaining chunk_size) i s first
          same)

-- The hash that is reported is that of the plaintext that is written.
pub decrypt_file-hash :
    (c : AgentCrates) (input : List ℕ) (o : Output) (secret_hex nonce_hex : Text)
    (context : FileCipherContext) {file : CryptographicFile} {plaintext : List ℕ}
    → decrypt_file_to_path c (ok input) o secret_hex nonce_hex context ≡ ok (file, plaintext)
    → file.content_hash ≡ c.core.blake3_hex plaintext
unfolding decrypt_file_to_path
decrypt_file-hash c input o secret_hex nonce_hex context {file} {plaintext} done =
    let (key, derived, after_key) = >>=-eq-ok (derive_key c secret_hex) _ done in
    let (prefix, decoded, after_prefix) = >>=-eq-ok (decode_nonce_prefix c nonce_hex) _ after_key in
    let (created, made, after_create) = >>=-eq-ok (map_err io o.create) _ after_prefix in
    let (s, opened, after_loop) =
      >>=-eq-ok
        (decrypt_chunks c key prefix context o (chunk_count context.plaintext_size) 0
          (record { remaining = context.plaintext_size; input = input; hashed = []; written = [] }))
        _ after_create in
    let (checked, empty, after_check) =
      >>=-eq-ok (guard (length s.input == 0) invalid_ciphertext) _ after_loop in
    let (stored, synced, last) = >>=-eq-ok (map_err io o.sync_all) _ after_check in
    let end = ok_injective _ (file, plaintext) last in
    sym (ap (λ (r : CryptographicFile × List ℕ). r.0.content_hash) end)
    ∙ ap c.core.blake3_hex (
        decrypt_chunks-hashed c key prefix context o (chunk_count context.plaintext_size) 0 _ opened
          refl
        ∙ ap (λ (r : CryptographicFile × List ℕ). r.1) end)
