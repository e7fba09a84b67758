-- ===== src/Crates.antt =====
-- The third-party crates that the workspace calls, as parameters, with what it relies on.
use syncer.Prelude.{ℕ, String, ◌≡◌, Bool, Option, List}
use syncer.Prelude.Words.{ℤ}
use syncer.Prelude.Texts.{Text}
use syncer.Prelude.Paths
use syncer.Prelude.Paths.{Component}

pub record Crates : Type 0 where
  -- camino: `Utf8Path::components`, `is_absolute`, `Utf8PathBuf::push`
  pub components : Text → List Component
  pub is_absolute : Text → Bool
  pub push : Text → Text → Text
  -- `Utf8Path::to_string`, for messages
  pub display : Text → String
  -- time: instants are numbers, in their order; a unix time is in seconds
  pub unix_timestamp : ℕ → ℤ
  pub from_unix_timestamp : ℤ → Option ℕ
  pub component_range_message : String
  -- uuid: `Display`
  pub uuid_to_string : ℕ → String
  -- blake3: `hash(bytes).to_hex()`
  pub blake3_hex : List ℕ → String
  -- serde_json: `to_string` of a list of hashes
  pub hashes_to_json : List String → String
  -- sqlx: the message of a statement that the database rejects for its primary key
  pub unique_violation : String

-- camino documents that its paths are those of the standard library, with UTF-8 contents.
pub record HasStdPaths (c : Crates) : Type 0 where
  pub components_lem : (p : Text) → c.components p ≡ Paths.components p
  pub is_absolute_lem : (p : Text) → c.is_absolute p ≡ Paths.is_absolute p
  pub push_lem : (p s : Text) → c.push p s ≡ Paths.push p s
