-- ===== src/Agent/Commands/Queue/Once.antt =====
-- crates/syncer-agent/src/main.rs: one synchronization with a peer.
use syncer.Prelude.{ℕ, String, map_err}
use syncer.Prelude.Texts.{Text}
use syncer.Core.JsonFile.{JsonFile}
use syncer.Core.Planning.{SyncPlanSummary}
use syncer.Core.StateDb.Queue.{queue_status}
use syncer.Core.StateDb.Queue.Enqueue.{enqueue_sync_plan}
use syncer.Core.StateDb.Records.{QueueStatus}
use syncer.Agent.FileSystem.{FileSystem}
use syncer.Agent.Handler.{Handler, ◌>>=◌, pure, lift, ask}
use syncer.Agent.PeerClient.{Peer}
use syncer.Agent.PeerServer.{Moment, PresenceResponse}
use syncer.Agent.Profile
use syncer.Agent.Profile.{LocalDeviceProfile}
use syncer.Agent.Commands.{CommandCrates}
use syncer.Agent.Commands.Errors.{AgentError, core, profile_read, peer_client}
use syncer.Agent.Commands.Queue.{ExecuteSyncQueueOutput, build_sync_plan, run_sync_queue}

pub record SyncOnceOutput : Type 0 where
  pub presence : PresenceResponse
  pub plan_summary : SyncPlanSummary
  pub queued : QueueStatus
  pub transfer : ExecuteSyncQueueOutput
  pub final_queue : QueueStatus

-- `new_id` gives the ids of new operations.
module _ (c : CommandCrates) (F : FileSystem) (m : Moment) (root device_config : Text)
    (profile_file : JsonFile LocalDeviceProfile) (operation_id : ℕ) (new_id : ℕ → String)
    (peer : Peer) where
  unfoldable pub send_presence : Handler F AgentError PresenceResponse
  send_presence = do
    profile ← lift (map_err profile_read (Profile.read device_config profile_file))
    lift (
        map_err peer_client (
          peer.post_presence (record {
            device_id = profile.device_id;
            sent_at = m.now;
            agent_version = m.agent_version;
          })))

  unfoldable pub run_sync_once : ℕ → Handler F AgentError SyncOnceOutput
  unfolding send_presence build_sync_plan enqueue_sync_plan run_sync_queue queue_status
  run_sync_once limit = do
    presence ← send_presence
    plan ← build_sync_plan c F m root device_config profile_file operation_id peer
    queued ← λ d.
        let (database, status) = enqueue_sync_plan c.agent.core m.unix_now new_id plan d.database in
        (record d { database = database }, map_err core status)
    transferred ← run_sync_queue c F m root device_config profile_file operation_id peer limit
    final_queue ← ask λ d. map_err core (queue_status c.agent.core d.database)
    pure (record {
      presence = presence;
      plan_summary = plan.summary;
      queued = queued;
      transfer = transferred;
      final_queue = final_queue;
    })
