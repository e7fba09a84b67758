-- ===== src/Agent/PeerServer.antt =====
-- crates/syncer-agent/src/peer_server.rs: the data of requests and responses, and the errors with
-- their status codes.
pub mod Http
pub mod Auth
pub mod Response
pub mod Folder
pub mod Route
use syncer.Prelude.{ℕ, String, Bool, List, Result, ok, err}
use syncer.Prelude.Texts.{Text}
use syncer.Core.Error.{CoreError}
use syncer.Core.Manifest.{RelativePath}
use syncer.Core.Security.{PeerPresence}
use syncer.Core.StateDb.Records.{FolderManifest}
use syncer.Agent.Crates.{AgentCrates}
use syncer.Agent.PeerCrypto.{PeerCryptoError}
use syncer.Agent.PeerStore.{PeerStoreError}
use syncer.Agent.Profile.{LocalDeviceProfile}
use syncer.Agent.RequestSigning.{SigningError}

pub data PeerServerError : Type 0 where
  io : String → PeerServerError
  filesystem : Text → String → PeerServerError
  core : CoreError → PeerServerError
  json : String → PeerServerError
  invalid_request : PeerServerError
  request_too_large : PeerServerError
  request_timeout : PeerServerError
  not_found : PeerServerError
  conflict : PeerServerError
  hash_mismatch : PeerServerError
  folder_limit_exceeded : ℕ → ℕ → PeerServerError
  unauthorized : PeerServerError
  peer_store : PeerStoreError → PeerServerError
  signing : SigningError → PeerServerError
  peer_crypto : PeerCryptoError → PeerServerError

abbrev pub ServerResult : Type 0 → Type 0
ServerResult A = Result PeerServerError A

-- `PeerServerError::public_code`
unfoldable pub public_code : PeerServerError → String
public_code invalid_request = "invalid_request"
public_code (json message) = "invalid_request"
public_code request_too_large = "request_too_large"
public_code request_timeout = "request_timeout"
public_code not_found = "not_found"
public_code conflict = "conflict"
public_code hash_mismatch = "hash_mismatch"
public_code (folder_limit_exceeded remaining requested) = "folder_limit_exceeded"
public_code unauthorized = "unauthorized"
public_code (peer_store e) = "unauthorized"
public_code (signing e) = "unauthorized"
public_code (io message) = "internal_error"
public_code (core e) = "internal_error"
public_code (filesystem path message) = "internal_error"
public_code (peer_crypto e) = "internal_error"

-- The status of `error_response`.
unfoldable pub error_status : PeerServerError → ℕ
error_status unauthorized = 401
error_status (peer_store e) = 401
error_status (signing e) = 401
error_status not_found = 404
error_status conflict = 409
error_status request_too_large = 413
error_status request_timeout = 408
error_status invalid_request = 400
error_status hash_mismatch = 400
error_status (folder_limit_exceeded remaining requested) = 400
error_status (json message) = 400
error_status (io message) = 500
error_status (core e) = 500
error_status (filesystem path message) = 500
error_status (peer_crypto e) = 500

-- A spooled body; `contents` is what the file at `path` holds.
pub record FileBody : Type 0 where
  pub path : Text
  pub size_bytes : ℕ
  pub sha256_hex : Text
  pub contents : List ℕ

pub data HttpBody : Type 0 where
  memory : List ℕ → HttpBody
  file : FileBody → HttpBody

-- A `HashMap` of headers, with the latest entry of a name first.
abbrev pub Headers : Type 0
Headers = List (Text × Text)

pub record HttpRequest : Type 0 where
  pub method : Text
  pub path : Text
  pub headers : Headers
  pub body_sha256_hex : Text
  pub body : HttpBody

unfoldable pub memory_body : HttpBody → ServerResult (List ℕ)
memory_body (memory bytes) = ok bytes
memory_body (file body) = err invalid_request

unfoldable pub file_body : HttpBody → ServerResult FileBody
file_body (memory bytes) = err invalid_request
file_body (file body) = ok body

unfoldable pub body_sha256_hex : AgentCrates → HttpBody → Text
body_sha256_hex c (memory bytes) = c.hex_encode (c.sha256 bytes)
body_sha256_hex c (file body) = body.sha256_hex

pub record SharedFile : Type 0 where
  pub path : Text
  pub size_bytes : ℕ
  pub content_hash : String

pub record UploadEncryption : Type 0 where
  pub shared_secret_hex : Text
  pub nonce_hex : Text

pub record PresenceResponse : Type 0 where
  pub accepted : Bool
  pub received_from : Text
  pub local_presence : PeerPresence

pub record UploadFileResponse : Type 0 where
  pub accepted : Bool
  pub path : RelativePath
  pub size_bytes : ℕ
  pub content_hash : Text

pub record DeleteFileResponse : Type 0 where
  pub accepted : Bool
  pub path : RelativePath
  pub size_bytes : ℕ
  pub content_hash : Text

-- The values that are sent as JSON.
pub data Body : Type 0 where
  health : Bool → Text → Body
  presence : PresenceResponse → Body
  manifest : FolderManifest → Body
  uploaded : UploadFileResponse → Body
  deleted : DeleteFileResponse → Body
  failure : String → Body

pub data PeerResponse : Type 0 where
  bytes : List ℕ → PeerResponse
  file : Text → Text → Bool → PeerResponse

pub record PeerServerConfig : Type 0 where
  pub folder_path : Text
  pub profile : LocalDeviceProfile

-- serde_json for the values of this file, and camino's `with_extension`.
pub record ServerCrates : Type 0 where
  pub agent : AgentCrates
  pub to_vec : Body → Result String (List ℕ)
  pub presence_from_slice : List ℕ → Result String PeerPresence
  pub with_extension : Text → Text → Text
  pub parent : Text → Text

-- What the surroundings give while a request is handled: the time, as an instant and as the
-- database's `unixepoch()`, a fresh unique id and the version of the package.
pub record Moment : Type 0 where
  pub now : ℕ
  pub unix_now : ℕ
  pub fresh : Text
  pub agent_version : String
