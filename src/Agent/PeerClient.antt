-- ===== src/Agent/PeerClient.antt =====
-- crates/syncer-agent/src/peer_client.rs: the answers and errors of the client, and the peer as a
-- command sees it through the client's functions.
pub mod Address
pub mod Request
pub mod Response
pub mod Fetch
use syncer.Prelude.{ℕ, String, Bool, List, Result}
use syncer.Prelude.Texts.{Text}
use syncer.Core.Manifest.{RelativePath}
use syncer.Core.Security.{PeerPresence}
use syncer.Core.StateDb.Records.{FolderManifest}
use syncer.Agent.PeerCrypto.{PeerCryptoError}
use syncer.Agent.PeerServer.{PresenceResponse}
use syncer.Agent.RequestSigning.{SigningError}

pub data PeerClientError : Type 0 where
  unsupported_endpoint : PeerClientError
  io : String → PeerClientError
  json : String → PeerClientError
  invalid_response : PeerClientError
  http_status : ℕ → PeerClientError
  unexpected_content_length : ℕ → ℕ → PeerClientError
  plaintext_hash_mismatch : PeerClientError
  peer_crypto : PeerCryptoError → PeerClientError
  signing : SigningError → PeerClientError

pub record UploadFileResponse : Type 0 where
  pub accepted : Bool
  pub path : RelativePath
  pub size_bytes : ℕ
  pub content_hash : String

pub record DeleteFileResponse : Type 0 where
  pub accepted : Bool
  pub path : RelativePath
  pub size_bytes : ℕ
  pub content_hash : String

pub record TransferredFile : Type 0 where
  pub size_bytes : ℕ
  pub content_hash : String

-- What arrives on a connection: what each read gives, until it ends.
abbrev pub Reads : Type 0
Reads = List (Result String (List ℕ))

-- The peer at an endpoint, whatever it is, and the secret that the command uses for it: what arrives for
-- a request of a file, as the bytes up to the first empty line and the reads behind it, and what the
-- client's functions for the other requests give.
pub record Peer : Type 0 where
  pub post_presence : PeerPresence → Result PeerClientError PresenceResponse
  pub fetch_manifest : Result PeerClientError FolderManifest
  pub shared_secret_hex : Text
  pub get_file : RelativePath → Result PeerClientError (List ℕ × Reads)
  pub put_file_from_path : RelativePath → String → ℕ → Result PeerClientError UploadFileResponse
  pub delete_file : RelativePath → String → ℕ → Result PeerClientError DeleteFileResponse
