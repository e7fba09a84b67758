-- ===== src/Core/Error.antt =====
-- crates/syncer-core/src/error.rs
use syncer.Prelude.{ℕ, String, Result}

pub data CoreError : Type 0 where
  invalid_device_name : CoreError
  empty_relative_path : CoreError
  absolute_relative_path : CoreError
  traversal_relative_path : CoreError
  syncer_metadata_path : CoreError
  invalid_folder_limit : CoreError
  invalid_warning_threshold : CoreError
  invalid_public_key_length : CoreError
  expired_pairing_ticket : CoreError
  unsupported_folder_schema : ℕ → CoreError
  native_storage_root_required : CoreError
  filesystem : String → String → CoreError
  json : String → CoreError
  state_database : String → CoreError
  file_size_overflow : CoreError

abbrev pub CoreResult {ℓ} : Type ℓ → Type ℓ
CoreResult A = Result CoreError A
