-- ===== src/Core/Manifest.antt =====
-- crates/syncer-core/src/manifest.rs: relative paths, content hashes and file entries.
pub mod Safety
pub mod Stability
use syncer.Prelude.{
  ℕ, String, Bool, false, Option, List, [], ◌∷◌, ok, err, ◌>>=◌, ◌==◌, if◌then◌else◌,
}
use syncer.Prelude.Texts.{Text, text_eq, codes}
use syncer.Prelude.Paths.{
  Component, prefix, root_dir, cur_dir, parent_dir, normal, as_str, is_empty, trim,
}
use syncer.Crates.{Crates}
use syncer.Core.Error.{
  CoreResult, empty_relative_path, absolute_relative_path, traversal_relative_path,
  syncer_metadata_path,
}

-- A `RelativePath` is the text that `parse` has let through.
abbrev pub RelativePath : Type 0
RelativePath = Text

unfoldable pub starts_with_syncer : List Component → Bool
unfolding as_str
starts_with_syncer [] = false
starts_with_syncer (component ∷ rest) = as_str component == codes ".syncer"

module _ (c : Crates) where
  -- The loop over the components.
  unfoldable pub normalize : List Component → Text → CoreResult Text
  normalize [] normalized = ok normalized
  normalize (normal part ∷ rest) normalized = normalize rest (c.push normalized part)
  normalize (cur_dir ∷ rest) normalized = normalize rest normalized
  normalize (parent_dir ∷ rest) normalized = err traversal_relative_path
  normalize (root_dir ∷ rest) normalized = err absolute_relative_path
  normalize (prefix s ∷ rest) normalized = err absolute_relative_path

  -- The two tests after the loop.
  unfoldable pub check_normalized : Text → CoreResult RelativePath
  unfolding is_empty starts_with_syncer
  check_normalized normalized =
      if is_empty normalized
      then err empty_relative_path
      else if starts_with_syncer (c.components normalized)
      then err syncer_metadata_path
      else ok normalized

  unfoldable pub parse : Text → CoreResult RelativePath
  unfolding normalize check_normalized trim
  parse value =
      let raw = trim value in
      if is_empty raw
      then err empty_relative_path
      else if c.is_absolute raw
      then err absolute_relative_path
      else normalize (c.components raw) [] >>= check_normalized

  -- `ContentHash::from_bytes` and `BlockHash::from_bytes`
  unfoldable pub hash_of_bytes : List ℕ → String
  hash_of_bytes bytes = c.blake3_hex bytes

pub data FileKind : Type 0 where
  file : FileKind
  directory : FileKind

pub record FileVersion : Type 0 where
  pub generation : ℕ
  pub device_id : ℕ

pub record FileEntry : Type 0 where
  pub path : RelativePath
  pub kind : FileKind
  pub size_bytes : ℕ
  pub modified_at : ℕ
  pub content_hash : Option String
  pub block_hashes : List String
  pub version : FileVersion
