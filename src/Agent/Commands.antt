-- ===== src/Agent/Commands.antt =====
-- crates/syncer-agent/src/main.rs: the errors and results of the commands that transfer files.
pub mod Errors
pub mod Checks
pub mod Download
pub mod Upload
pub mod Queue
pub mod Delete
use syncer.Prelude.{ℕ, String, Bool, Option, List}
use syncer.Prelude.Texts.{Text}
use syncer.Core.Error.{CoreError}
use syncer.Core.Manifest.{RelativePath}
use syncer.Agent.Crates.{AgentCrates}
use syncer.Agent.PeerClient.{PeerClientError}

pub data TransferError : Type 0 where
  local_file_missing : TransferError
  local_path_is_not_file : TransferError
  local_hash_missing : TransferError
  local_file_changed : TransferError
  remote_file_missing : TransferError
  remote_path_is_not_file : TransferError
  remote_hash_missing : TransferError
  remote_file_changed : TransferError
  remote_target_exists : TransferError
  remote_delete_rejected : TransferError
  upload_rejected : TransferError
  local_target_exists : TransferError
  size_mismatch : ℕ → ℕ → TransferError
  hash_mismatch : TransferError
  folder_limit_exceeded : ℕ → ℕ → TransferError
  filesystem : Text → String → TransferError
  peer_client : PeerClientError → TransferError
  core : CoreError → TransferError

pub data TransferStatus : Type 0 where
  done : TransferStatus
  failed : TransferStatus

pub record TransferOperationResult : Type 0 where
  pub operation_id : String
  pub path : RelativePath
  pub status : TransferStatus
  pub size_bytes : ℕ
  pub error : Option String

-- camino's `parent`, and the texts of the errors beside the crates of the agent.
pub record CommandCrates : Type 0 where
  pub agent : AgentCrates
  pub parent : Text → Text
  pub with_extension : Text → Text → Text
  pub error_text : TransferError → String
