-- ===== src/Agent/Commands/Errors.antt =====
-- crates/syncer-agent/src/main.rs: the errors of the commands.
use syncer.Prelude.{String}
use syncer.Prelude.Texts.{Text}
use syncer.Core.Error.{CoreError}
use syncer.Agent.Commands.{TransferError}
use syncer.Agent.PeerClient.{PeerClientError}
use syncer.Agent.PeerServer.{PeerServerError}
use syncer.Agent.PeerStore.{PeerStoreError}
use syncer.Agent.Profile.{ProfileReadError}

pub data AgentError : Type 0 where
  core : CoreError → AgentError
  date_time : String → AgentError
  invalid_pending_transfer : AgentError
  missing_delete_peer_config : AgentError
  create_directory : Text → String → AgentError
  create_config : Text → String → AgentError
  write_config : Text → String → AgentError
  json : String → AgentError
  profile_read : ProfileReadError → AgentError
  peer_server : PeerServerError → AgentError
  peer_client : PeerClientError → AgentError
  peer_store : PeerStoreError → AgentError
  transfer : TransferError → AgentError
