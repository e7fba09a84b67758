-- ===== src/Core/Model.antt =====
-- crates/syncer-core/src/model.rs: device names and the configuration of a folder.
pub mod Laws
use syncer.Prelude.{
  ℕ, String, ◌^◌, ◌-◌, Bool, true, not, ◌&&◌, ◌||◌, Option, List, [], ◌∷◌, ok, err, leb,
  if◌then◌else◌, length, min,
}
use syncer.Prelude.Words.{i64_max}
use syncer.Prelude.Texts.{Text}
use syncer.Prelude.Paths.{is_empty, trim}
use syncer.Core.Error.{CoreResult, invalid_device_name}
use syncer.Core.Security.{PublicKeyBytes}
use syncer.Core.Limits.{FolderSizeLimit}

-- `char::is_control`: the Unicode category Cc.
unfoldable pub is_control : ℕ → Bool
is_control c = leb c 31 || (leb 127 c && leb c 159)

-- `value.chars().all(|character| !character.is_control())`
unfoldable pub has_no_control : Text → Bool
unfolding is_control
has_no_control [] = true
has_no_control (c ∷ s) = not (is_control c) && has_no_control s

-- `DeviceName::parse`
unfoldable pub parse_device_name : Text → CoreResult Text
unfolding trim is_empty has_no_control
parse_device_name value =
    let name = trim value in
    if not (is_empty name) && leb (length name) 64 && has_no_control name
    then ok name
    else err invalid_device_name

pub data FolderMode : Type 0 where
  bidirectional : FolderMode
  upload_only : FolderMode
  download_only : FolderMode

pub data DeleteScope : Type 0 where
  local_only : DeleteScope
  propagate_to_peers : DeleteScope

pub record RetentionPolicy : Type 0 where
  pub max_versions_per_file : ℕ
  pub max_age_days : ℕ

abbrev pub default_retention : RetentionPolicy
default_retention = record { max_versions_per_file = 5; max_age_days = 30 }

pub record PeerEndpoint : Type 0 where
  pub host : String
  pub port : ℕ

pub record FolderPeer : Type 0 where
  pub device_id : ℕ
  pub device_name : Text
  pub public_key : PublicKeyBytes
  pub endpoint : Option PeerEndpoint

pub data StorageRoot : Type 0 where
  native_path : Text → StorageRoot
  android_tree_uri : String → StorageRoot

pub record FolderConfig : Type 0 where
  pub id : ℕ
  pub display_name : String
  pub root : StorageRoot
  pub mode : FolderMode
  pub interval_seconds : ℕ
  pub size_limit : FolderSizeLimit
  pub retention : RetentionPolicy
  pub peers : List FolderPeer

-- In seconds: `interval_seconds.try_into().unwrap_or(i64::MAX)`.
unfoldable pub sync_interval : FolderConfig → ℕ
sync_interval folder =
    if leb folder.interval_seconds i64_max then folder.interval_seconds else i64_max
