-- ===== src/Agent/PeerClient/Fetch.antt =====
-- crates/syncer-agent/src/peer_client.rs: how the client fetches a file.
pub mod Laws
use syncer.Prelude.{
  ℕ, zero, suc, ◌-◌, String, List, [], ◌∷◌, ◌++◌, Result, ok, err, ◌>>=◌, ◌>>◌, map_err, length,
}
use syncer.Prelude.Lists.{split_at}
use syncer.Core.Manifest.{RelativePath}
use syncer.Agent.Crates.{AgentCrates}
use syncer.Agent.PeerClient.{PeerClientError, io, invalid_response, TransferredFile, Reads, Peer}
use syncer.Agent.PeerClient.Response.{parse_response_head, accept_head, open_file}
use syncer.Agent.PeerCrypto.{Output}

-- `copy_exact`, with what it writes; a write is named by what remains before it. Of what arrives, no more
-- is taken than remains.
unfoldable pub copy_exact : Output → ℕ → Reads → Result PeerClientError (List ℕ)
copy_exact o zero reads = ok []
copy_exact o (suc n) [] = err invalid_response
copy_exact o (suc n) (err message ∷ reads) = err (io message)
copy_exact o (suc n) (ok [] ∷ reads) = err invalid_response
copy_exact o (suc n) (ok (byte ∷ more) ∷ reads) = do
  map_err io (o.write_chunk (suc n))
  rest ← copy_exact o (n - length more) reads
  ok ((split_at (suc n) (byte ∷ more)).0 ++ rest)

-- `fetch_file_to_path`, with what it writes to the encrypted file and to the destination.
unfoldable pub fetch_file_to_path :
    AgentCrates
    → Output
    → Output
    → Peer
    → RelativePath
    → ℕ
    → Result PeerClientError (TransferredFile × (List ℕ × List ℕ))
unfolding parse_response_head accept_head copy_exact open_file
fetch_file_to_path c encrypted destination peer path size_bytes = do
  (head_bytes, reads) ← peer.get_file path
  head ← parse_response_head head_bytes
  (nonce, content_hash) ← accept_head size_bytes head
  map_err io encrypted.create
  body ← copy_exact encrypted head.content_length reads
  map_err io encrypted.sync_all
  (transferred, contents) ←
      open_file c destination peer.shared_secret_hex path size_bytes nonce content_hash body
  ok (transferred, (body, contents))
