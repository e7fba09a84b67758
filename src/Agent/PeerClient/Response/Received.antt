-- ===== src/Agent/PeerClient/Response/Received.antt =====
-- Files that the client receives, of crates/syncer-agent/src/peer_client.rs.
use syncer.Prelude.{ℕ, ◌≡◌, refl, some, List, map, ok, nat_eq, beq_refl}
use syncer.Prelude.Lists.{concat}
use syncer.Prelude.Texts.{Text, text_eq, codes}
use syncer.Core.Manifest.{RelativePath}
use syncer.Agent.Crates.{AgentCrates, HasAead, HexRoundTrips}
use syncer.Agent.PeerClient.Response.{ResponseHead, accept_head, open_file, receive_file}
use syncer.Agent.PeerCrypto.{
  Output, FileCipherContext, CryptographicFile, encrypted_len, encryption_algorithm,
  encrypt_file_to_path,
}
use syncer.Agent.PeerCrypto.RoundTrip.{IsTransfer, decrypt_file-encrypt}
use syncer.Agent.PeerCrypto.Spec.{AreFull, NeverFails}
use syncer.Agent.PeerServer.Auth.{get}

-- A head that `accept_head` takes, with its nonce and hash.
pub record IsAccepted (size : ℕ) (head : ResponseHead) (nonce hash : Text) : Type 0 where
  pub status_lem : head.status ≡ 200
  pub encryption_lem : get (codes "x-syncer-encryption") head.headers ≡ some encryption_algorithm
  pub nonce_lem : get (codes "x-syncer-nonce") head.headers ≡ some nonce
  pub hash_lem : get (codes "x-syncer-content-hash") head.headers ≡ some hash
  pub length_lem : head.content_length ≡ encrypted_len size

accept_head_of_IsAccepted :
    (size : ℕ) (head : ResponseHead) (nonce hash : Text)
    → IsAccepted size head nonce hash
    → accept_head size head ≡ ok (nonce, hash)
unfolding accept_head
accept_head_of_IsAccepted size head nonce hash a =
    rw
      (
        a.status_lem,
        a.encryption_lem,
        beq_refl encryption_algorithm,
        a.nonce_lem,
        a.hash_lem,
        a.length_lem,
        beq_refl (encrypted_len size),
      )
      refl

abbrev context_of : RelativePath → Text → ℕ → FileCipherContext
context_of path hash size = record {
  direction = codes "download";
  path = path;
  content_hash = hash;
  plaintext_size = size;
}

-- The client receives what a device has encrypted for a download: where the reads of the file fill the
-- buffer up to the last, no write fails, and the head states the algorithm, the nonce, the hash and the
-- length, the destination has the file's contents, and their hash and size are reported.
pub receive_file-encrypt :
    (c : AgentCrates) (secret_hex : Text) (prefix : List ℕ) (path : RelativePath) (hash : Text)
    (size : ℕ) (chunks : List (List ℕ)) (o destination : Output) (head : ResponseHead)
    → HasAead c
    → HexRoundTrips c
    → IsTransfer c secret_hex prefix (context_of path hash size) chunks
    → AreFull chunks
    → NeverFails o
    → NeverFails destination
    → IsAccepted size head (c.hex_encode prefix) hash
    → (file : CryptographicFile) × (ciphertext : List ℕ) × (encrypt_file_to_path c
          (ok (map ok chunks))
          o
          secret_hex
          prefix
          (context_of path hash size)
        ≡ ok (file, ciphertext))
      × (receive_file c destination secret_hex path size head ciphertext
          ≡ ok (
            record { size_bytes = size; content_hash = c.core.blake3_hex (concat chunks) },
            concat chunks,
          ))
unfolding receive_file open_file
receive_file-encrypt c secret_hex prefix path hash size chunks o destination head aead hexes t full
      fine fine' a =
    let (ciphertext, encrypted, decrypted) =
      decrypt_file-encrypt c secret_hex prefix (context_of path hash size) chunks o destination aead
        hexes t full fine fine' in
    (
      _,
      ciphertext,
      encrypted,
      rw (accept_head_of_IsAccepted size head (c.hex_encode prefix) hash a, decrypted) refl,
    )
