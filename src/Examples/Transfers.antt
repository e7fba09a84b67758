-- ===== src/Examples/Transfers.antt =====
-- Witnesses for encrypted files: one chunk of three bytes, and the same bytes in two reads.
use syncer.Prelude.{ℕ, ◌+◌, ◌≤◌, ◌≡◌, ◌≢◌, refl, List, [], ◌∷◌, map, ok, length, arith}
use syncer.Prelude.Lists.{concat}
use syncer.Prelude.Texts.{Text, codes}
use syncer.Agent.PeerClient.Response.{ResponseHead, receive_file}
use syncer.Agent.PeerClient.Response.Received.{IsAccepted, receive_file-encrypt}
use syncer.Agent.PeerCrypto.{
  encryption_algorithm, Output, FileCipherContext, CryptographicFile, encrypt_file_to_path,
  decrypt_file_to_path, encrypted_len, chunk_nonce,
}
use syncer.Agent.PeerCrypto.Nonces.{chunk_nonce-distinct}
use syncer.Agent.PeerCrypto.RoundTrip.{IsTransfer, decrypt_file-encrypt}
use syncer.Agent.PeerCrypto.ShortReads.{encrypt_file-short_reads}
use syncer.Agent.PeerCrypto.Sizes.{decrypt_file-sizes}
use syncer.Examples.Agent.{
  std_agent, std_agent-HasAead, std_agent-HexRoundTrips, good_output, good_output-NeverFails,
  zero_tag,
}

abbrev pub secret_text : Text
secret_text = codes "0123456789abcdef0123456789abcdef"

abbrev pub nonce_prefix : List ℕ
nonce_prefix = codes "0123456789abcdef"

abbrev pub context : FileCipherContext
context = record {
  direction = codes "upload";
  path = codes "a";
  content_hash = codes "digest";
  plaintext_size = 3;
}

abbrev one_read : List (List ℕ)
one_read = (1 ∷ 2 ∷ 3 ∷ []) ∷ []

abbrev two_reads : List (List ℕ)
two_reads = (1 ∷ 2 ∷ []) ∷ (3 ∷ []) ∷ []

is_transfer : IsTransfer std_agent secret_text nonce_prefix context one_read
is_transfer = record {
  secret = secret_text;
  decoded = refl;
  secret_size = refl;
  prefix_size = refl;
  size = refl;
  fits = omega arith;
}

is_short_transfer : IsTransfer std_agent secret_text nonce_prefix context two_reads
is_short_transfer = record {
  secret = secret_text;
  decoded = refl;
  secret_size = refl;
  prefix_size = refl;
  size = refl;
  fits = omega arith;
}

abbrev sent : CryptographicFile
sent = record { size_bytes = 19; content_hash = "digest"; nonce_hex = nonce_prefix }

decrypt_file-encrypt_example :
    (ciphertext : List ℕ) × (encrypt_file_to_path std_agent
        (ok (map ok one_read))
        good_output
        secret_text
        nonce_prefix
        context
      ≡ ok (sent, ciphertext))
    × (decrypt_file_to_path std_agent (ok ciphertext) good_output secret_text nonce_prefix context
        ≡ ok (record sent { size_bytes = 3 }, concat one_read))
unfolding encrypted_len
decrypt_file-encrypt_example =
    decrypt_file-encrypt std_agent secret_text nonce_prefix context one_read good_output good_output
      std_agent-HasAead std_agent-HexRoundTrips is_transfer (omega arith, omega arith)
      good_output-NeverFails good_output-NeverFails

encrypt_file-short_reads_example :
    (file : CryptographicFile) × (ciphertext : List ℕ) × (encrypt_file_to_path std_agent
        (ok (map ok two_reads))
        good_output
        secret_text
        nonce_prefix
        context
      ≡ ok (file, ciphertext))
    × (file.size_bytes + 1 ≤ length ciphertext)
    × ((other : Output) (secret_hex' nonce_hex : Text) (result : CryptographicFile × List ℕ)
        → decrypt_file_to_path std_agent (ok ciphertext) other secret_hex' nonce_hex context
          ≢ ok result)
unfolding syncer.Agent.PeerCrypto.chunk_count
encrypt_file-short_reads_example =
    encrypt_file-short_reads std_agent secret_text nonce_prefix context (1 ∷ 2 ∷ []) ((3 ∷ []) ∷ [])
      good_output std_agent-HasAead is_short_transfer
      ((omega arith, omega arith), ((omega arith, omega arith), tt)) good_output-NeverFails
      (omega arith) (omega arith)

decrypt_file-sizes_example :
    (length {A = ℕ} (1 ∷ 2 ∷ 3 ∷ []) ≡ 3)
    × (let size : ℕ = 3 in size ≡ 3)
    × (length {A = ℕ} (1 ∷ 2 ∷ 3 ∷ zero_tag) ≡ encrypted_len 3)
unfolding decrypt_file_to_path syncer.Agent.PeerCrypto.derive_key
decrypt_file-sizes_example =
    decrypt_file-sizes std_agent (1 ∷ 2 ∷ 3 ∷ zero_tag) good_output secret_text nonce_prefix context
      std_agent-HasAead (omega arith) refl

chunk_nonce-distinct_example :
    (length (chunk_nonce nonce_prefix 0) ≡ 24)
    × (chunk_nonce nonce_prefix 0 ≢ chunk_nonce nonce_prefix 1)
chunk_nonce-distinct_example =
    chunk_nonce-distinct nonce_prefix 0 1 refl (omega arith) (omega arith)
      (λ same. absurd (omega (arith, same)))

abbrev download_context : FileCipherContext
download_context = record {
  direction = codes "download";
  path = codes "a";
  content_hash = codes "digest";
  plaintext_size = 3;
}

is_download : IsTransfer std_agent secret_text nonce_prefix download_context one_read
is_download = record {
  secret = secret_text;
  decoded = refl;
  secret_size = refl;
  prefix_size = refl;
  size = refl;
  fits = omega arith;
}

abbrev response_head : ResponseHead
response_head = record {
  status = 200;
  content_length = 19;
  headers =
      (codes "x-syncer-encryption", encryption_algorithm)
      ∷ (codes "x-syncer-nonce", nonce_prefix)
      ∷ (codes "x-syncer-content-hash", codes "digest")
      ∷ [];
}

response_head-IsAccepted : IsAccepted 3 response_head nonce_prefix (codes "digest")
unfolding syncer.Agent.PeerServer.Auth.get encrypted_len syncer.Prelude.text_beq
response_head-IsAccepted = record {
  status_lem = refl;
  encryption_lem = refl;
  nonce_lem = refl;
  hash_lem = refl;
  length_lem = refl;
}

receive_file-encrypt_example :
    (found : CryptographicFile) × (ciphertext : List ℕ) × (encrypt_file_to_path std_agent
        (ok (map ok one_read))
        good_output
        secret_text
        nonce_prefix
        download_context
      ≡ ok (found, ciphertext))
    × (receive_file std_agent good_output secret_text (codes "a") 3 response_head ciphertext
        ≡ ok (record { size_bytes = 3; content_hash = "digest" }, concat one_read))
receive_file-encrypt_example =
    receive_file-encrypt std_agent secret_text nonce_prefix (codes "a") (codes "digest") 3 one_read
      good_output good_output response_head std_agent-HasAead std_agent-HexRoundTrips is_download
      (omega arith, omega arith) good_output-NeverFails good_output-NeverFails
      response_head-IsAccepted
