-- ===== src/Agent/Profile.antt =====
-- crates/syncer-agent/src/profile.rs: the identity of this device.
use syncer.Prelude.{ℕ, String, List, Result, ok, err, ◌>>=◌}
use syncer.Prelude.Texts.{Text}
use syncer.Core.Error.{CoreResult}
use syncer.Core.Model.{parse_device_name}
use syncer.Core.JsonFile.{JsonFile, absent, unreadable, malformed, holds, not_found}
use syncer.Agent.Crates.{AgentCrates}

pub record LocalDeviceProfile : Type 0 where
  pub device_id : ℕ
  pub device_name : Text
  pub created_at : ℕ
  pub local_api_token_hex : Text
  pub identity_public_hex : Text
  pub identity_secret_hex : Text

pub data ProfileReadError : Type 0 where
  read_error : Text → String → ProfileReadError
  json : String → ProfileReadError

unfoldable pub public_identity_hex : AgentCrates → List ℕ → Text
public_identity_hex c secret = c.hex_encode (c.sha256 secret)

-- `id`, `now`, the identity's secret and the token are what the system and the random generator give.
unfoldable pub create : AgentCrates → ℕ → ℕ → List ℕ → List ℕ → Text → CoreResult LocalDeviceProfile
unfolding public_identity_hex parse_device_name
create c id now identity_secret token name = do
  device_name ← parse_device_name name
  ok (record {
    device_id = id;
    device_name = device_name;
    created_at = now;
    local_api_token_hex = c.hex_encode token;
    identity_public_hex = public_identity_hex c identity_secret;
    identity_secret_hex = c.hex_encode identity_secret;
  })

unfoldable pub read :
    Text → JsonFile LocalDeviceProfile → Result ProfileReadError LocalDeviceProfile
read path absent = err (read_error path not_found)
read path (unreadable message) = err (read_error path message)
read path (malformed message) = err (json message)
read path (holds profile) = ok profile
