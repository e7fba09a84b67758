-- ===== src/Agent/PeerCrypto.antt =====
-- crates/syncer-agent/src/peer_crypto.rs: files are encrypted chunk by chunk, each chunk with a nonce
-- of its own and followed by its tag. A function returns the contents that it wrote beside its result.
pub mod Spec
pub mod Loops
pub mod RoundTrip
pub mod Sizes
pub mod Hashes
pub mod Nonces
pub mod ShortReads
use syncer.Prelude.{
  ℕ, zero, suc, ◌+◌, ◌-◌, ◌*◌, ◌/◌, ◌%◌, ◌^◌, min, String, Bool, not, ◌||◌, List, [], ◌∷◌, ◌++◌,
  Result, ok, err, ◌>>=◌, ◌>>◌, guard, ok_or, map_err, ltb, leb, ◌==◌, nat_eq, if◌then◌else◌,
  length,
}
use syncer.Prelude.Lists.{split_at}
use syncer.Prelude.Words.{u64_max, saturating_add, saturating_sub, saturating_mul}
use syncer.Prelude.Texts.{Text, codes}
use syncer.Prelude.Utf8.{bytes}
use syncer.Prelude.Decimal.{display}
use syncer.Core.Manifest.{RelativePath}
use syncer.Agent.Crates.{AgentCrates}

abbrev pub chunk_size : ℕ
chunk_size = 64 * 1024

abbrev pub tag_size : ℕ
tag_size = 16

abbrev pub nonce_prefix_bytes : ℕ
nonce_prefix_bytes = 16

abbrev pub encryption_algorithm : Text
encryption_algorithm = codes "xchacha20poly1305-blake3-v1"

pub record FileCipherContext : Type 0 where
  pub direction : Text
  pub path : RelativePath
  pub content_hash : Text
  pub plaintext_size : ℕ

pub record CryptographicFile : Type 0 where
  pub size_bytes : ℕ
  pub content_hash : String
  pub nonce_hex : Text

pub data PeerCryptoError : Type 0 where
  hex : String → PeerCryptoError
  io : String → PeerCryptoError
  invalid_shared_secret : PeerCryptoError
  invalid_nonce : PeerCryptoError
  encrypt : PeerCryptoError
  decrypt : PeerCryptoError
  invalid_ciphertext : PeerCryptoError
  size_overflow : PeerCryptoError
  unexpected_plaintext_size : ℕ → ℕ → PeerCryptoError

abbrev pub CryptoResult : Type 0 → Type 0
CryptoResult A = Result PeerCryptoError A

-- The file that is written: how `File::create`, the writes for each chunk and `sync_all` end. Without
-- a fault they are `ok tt`; the messages are those of the errors.
pub record Output : Type 0 where
  pub create : Result String (Unit {0})
  pub write_chunk : ℕ → Result String (Unit {0})
  pub write_tag : ℕ → Result String (Unit {0})
  pub sync_all : Result String (Unit {0})

-- `plaintext_len.div_ceil(CHUNK_SIZE)`, and one chunk for an empty file.
unfoldable pub chunk_count : ℕ → ℕ
chunk_count plaintext_len =
    if plaintext_len == 0
    then 1
    else plaintext_len / (64 * 1024) + (if plaintext_len % (64 * 1024) == 0 then 0 else 1)

unfoldable pub encrypted_len : ℕ → ℕ
unfolding chunk_count
encrypted_len plaintext_len =
    saturating_add plaintext_len (saturating_mul (chunk_count plaintext_len) tag_size)

-- `to_be_bytes`, of so many bytes.
unfoldable pub be_bytes : ℕ → ℕ → List ℕ
be_bytes zero n = []
be_bytes (suc count) n = be_bytes count (n / 256) ++ n % 256 ∷ []

unfoldable pub chunk_nonce : List ℕ → ℕ → List ℕ
unfolding be_bytes
chunk_nonce prefix chunk_index = prefix ++ be_bytes 8 chunk_index

-- The lines "{direction}\n{path}\n{content_hash}\n{plaintext_size}\n{chunk_index}".
unfoldable pub chunk_aad : FileCipherContext → ℕ → Text
unfolding display
chunk_aad context chunk_index =
    context.direction
    ++ b'\n'
      ∷ (context.path
          ++ b'\n'
            ∷ (context.content_hash
                ++ b'\n' ∷ (display context.plaintext_size ++ b'\n' ∷ display chunk_index)))

-- The variables of the loop of `encrypt_file_to_path`; the hasher is what has been fed to it.
pub record Sealing : Type 0 where
  pub processed : ℕ
  pub hashed : List ℕ
  pub chunk_index : ℕ
  pub written : List ℕ

-- Those of the loop of `decrypt_file_to_path`, with what is left of the input.
pub record Opening : Type 0 where
  pub remaining : ℕ
  pub input : List ℕ
  pub hashed : List ℕ
  pub written : List ℕ

module _ (c : AgentCrates) where
  unfoldable pub derive_key : Text → CryptoResult (List ℕ)
  derive_key shared_secret_hex = do
    secret ← map_err hex (c.hex_decode shared_secret_hex)
    guard (length secret == 32) invalid_shared_secret
    ok (c.derive_key "syncer file transfer encryption v1" secret)

  unfoldable pub decode_nonce_prefix : Text → CryptoResult (List ℕ)
  decode_nonce_prefix nonce_hex = do
    prefix ← map_err hex (c.hex_decode nonce_hex)
    guard (length prefix == nonce_prefix_bytes) invalid_nonce
    ok prefix

  module _ (key prefix : List ℕ) (context : FileCipherContext) (o : Output) where
    -- The round for what `read` gave.
    unfoldable pub encrypt_chunk : List ℕ → Sealing → CryptoResult Sealing
    unfolding chunk_nonce chunk_aad
    encrypt_chunk chunk s = do
      (ciphertext, tag) ← ok_or encrypt (
          c.seal key (chunk_nonce prefix s.chunk_index) (bytes (chunk_aad context s.chunk_index))
            chunk)
      map_err io (o.write_chunk s.chunk_index)
      map_err io (o.write_tag s.chunk_index)
      ok (record {
        processed = saturating_add s.processed (length chunk);
        hashed = s.hashed ++ chunk;
        chunk_index = saturating_add s.chunk_index 1;
        written = s.written ++ (ciphertext ++ tag);
      })

    -- The round of an empty read: an empty file still has one chunk.
    unfoldable pub encrypt_end : Sealing → CryptoResult Sealing
    unfolding encrypt_chunk
    encrypt_end s =
        if not (context.plaintext_size == 0) || not (s.chunk_index == 0)
        then ok s
        else encrypt_chunk [] s

    -- The loop, over what the reads give one after the other; behind them the file has ended.
    unfoldable pub encrypt_chunks : List (Result String (List ℕ)) → Sealing → CryptoResult Sealing
    unfolding encrypt_chunk encrypt_end
    encrypt_chunks [] s = encrypt_end s
    encrypt_chunks (err message ∷ reads) s = err (io message)
    encrypt_chunks (ok [] ∷ reads) s = encrypt_end s
    encrypt_chunks (ok (byte ∷ chunk) ∷ reads) s = do
      s' ← encrypt_chunk (byte ∷ chunk) s
      encrypt_chunks reads s'

    -- The round behind `read_exact`: the tag is split off and the rest is decrypted.
    unfoldable pub open_chunk : ℕ → List ℕ → CryptoResult (List ℕ)
    unfolding chunk_nonce chunk_aad
    open_chunk chunk_index encrypted = do
      guard (leb tag_size (length encrypted)) invalid_ciphertext
      let (ciphertext, tag) = split_at (length encrypted - tag_size) encrypted
      ok_or decrypt (
          c.unseal key (chunk_nonce prefix chunk_index) (bytes (chunk_aad context chunk_index))
            ciphertext tag)

    -- The round for one chunk, with the length of its plaintext.
    unfoldable pub decrypt_sized : ℕ → ℕ → Opening → CryptoResult Opening
    unfolding open_chunk
    decrypt_sized plaintext_len chunk_index s = do
      let encrypted_len = saturating_add plaintext_len tag_size
      guard (leb encrypted_len u64_max) size_overflow
      guard (leb encrypted_len (length s.input)) (io "failed to fill whole buffer")
      let (encrypted, input) = split_at encrypted_len s.input
      plaintext ← open_chunk chunk_index encrypted
      map_err io (o.write_chunk chunk_index)
      ok (record {
        remaining = saturating_sub s.remaining plaintext_len;
        input = input;
        hashed = s.hashed ++ plaintext;
        written = s.written ++ plaintext;
      })

    unfoldable pub decrypt_chunk : ℕ → Opening → CryptoResult Opening
    unfolding decrypt_sized
    decrypt_chunk chunk_index s =
        decrypt_sized (if s.remaining == 0 then 0 else min s.remaining chunk_size) chunk_index s

    -- `for chunk_index in 0..chunks`, with the number of rounds that are left.
    unfoldable pub decrypt_chunks : ℕ → ℕ → Opening → CryptoResult Opening
    unfolding decrypt_chunk
    decrypt_chunks zero chunk_index s = ok s
    decrypt_chunks (suc rounds) chunk_index s = do
      s' ← decrypt_chunk chunk_index s
      decrypt_chunks rounds (chunk_index + 1) s'

  -- `opened` is what `File::open` gives, as the reads that follow; `nonce_prefix` is random.
  unfoldable pub encrypt_file_to_path :
      Result String (List (Result String (List ℕ)))
      → Output
      → Text
      → List ℕ
      → FileCipherContext
      → CryptoResult (CryptographicFile × List ℕ)
  unfolding derive_key encrypt_chunks encrypted_len
  encrypt_file_to_path opened o shared_secret_hex nonce_prefix context = do
    key ← derive_key shared_secret_hex
    reads ← map_err io opened
    map_err io o.create
    s ←
        encrypt_chunks key nonce_prefix context o reads
          (record { processed = 0; hashed = []; chunk_index = 0; written = [] })
    map_err io o.sync_all
    guard (s.processed == context.plaintext_size)
        (unexpected_plaintext_size context.plaintext_size s.processed)
    ok (
      record {
        size_bytes = encrypted_len s.processed;
        content_hash = c.core.blake3_hex s.hashed;
        nonce_hex = c.hex_encode nonce_prefix;
      },
      s.written,
    )

  -- `opened` is what `File::open` gives, as the contents of the file.
  unfoldable pub decrypt_file_to_path :
      Result String (List ℕ)
      → Output
      → Text
      → Text
      → FileCipherContext
      → CryptoResult (CryptographicFile × List ℕ)
  unfolding derive_key decode_nonce_prefix decrypt_chunks chunk_count
  decrypt_file_to_path opened o shared_secret_hex nonce_hex context = do
    key ← derive_key shared_secret_hex
    prefix ← decode_nonce_prefix nonce_hex
    input ← map_err io opened
    map_err io o.create
    s ←
        decrypt_chunks key prefix context o (chunk_count context.plaintext_size) 0
          (record { remaining = context.plaintext_size; input = input; hashed = []; written = [] })
    guard (length s.input == 0) invalid_ciphertext
    map_err io o.sync_all
    ok (
      record {
        size_bytes = context.plaintext_size;
        content_hash = c.core.blake3_hex s.hashed;
        nonce_hex = nonce_hex;
      },
      s.written,
    )
