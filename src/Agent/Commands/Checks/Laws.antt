-- ===== src/Agent/Commands/Checks/Laws.antt =====
-- What the checks of an operation have found, of crates/syncer-agent/src/main.rs.
use syncer.Prelude.{
  ℕ, ◌≡◌, ◌⊎◌, inl, inr, refl, String, true, Option, none, some, List, ok, >>=-eq-ok, guard-eq-ok,
  ok_or-eq-ok, ok_injective, guard, ok_or, ◌==◌, option_string_eq, beq→eq,
}
use std.Path.{subst}
use syncer.Prelude.Paths.Same.{IsSamePath}
use syncer.Core.Manifest.{RelativePath}
use syncer.Core.StateDb.Records.{FileRecord, FolderManifest, SyncOperationRecord}
use syncer.Agent.Manifests.{find_record, is_file}
use syncer.Agent.Manifests.Laws.{find_record-path}
use syncer.Agent.Commands.{
  remote_file_missing, remote_path_is_not_file, remote_hash_missing, remote_file_changed,
}
use syncer.Agent.Commands.Checks.{or_else, agrees, remote_file_of}

-- A listed file with a known hash that is the one the operation was queued for.
pub record IsExpected (path : RelativePath) (queued_hash : Option String) (queued_size : Option ℕ)
    (files : List FileRecord) (found : FileRecord) (hash : String) : Type 0 where
  pub listed : find_record path files ≡ some found
  pub at_path : IsSamePath found.path path
  pub a_file : is_file found.kind ≡ true
  pub hash_lem : found.content_hash ≡ some hash
  pub queued_hash_lem : (queued_hash ≡ none) ⊎ (queued_hash ≡ some hash)
  pub size_lem : agrees queued_size found.size_bytes ≡ true

or_else_lem :
    (queued actual : Option String) (hash : String)
    → or_else queued actual ≡ some hash
    → (queued ≡ none) ⊎ (queued ≡ some hash)
unfolding or_else
or_else_lem none actual hash same = inl refl
or_else_lem (some queued) actual hash same = inr same

pub remote_file_of-IsExpected :
    (remote_manifest : FolderManifest) (operation : SyncOperationRecord)
    {pair : FileRecord × String}
    → remote_file_of remote_manifest operation ≡ ok pair
    → IsExpected operation.path operation.remote_content_hash operation.remote_size_bytes
        remote_manifest.files pair.0 pair.1
unfolding remote_file_of
remote_file_of-IsExpected remote_manifest operation {pair} same =
    let (found, at1, r1) =
      >>=-eq-ok (ok_or remote_file_missing (find_record operation.path remote_manifest.files)) _
        same in
    let (x2, at2, r2) = >>=-eq-ok (guard (is_file found.kind) remote_path_is_not_file) _ r1 in
    let (hash, at3, r3) =
      >>=-eq-ok
        (ok_or remote_hash_missing (or_else operation.remote_content_hash found.content_hash)) _
        r2 in
    let (x4, at4, r4) =
      >>=-eq-ok (guard (found.content_hash == some hash) remote_file_changed) _ r3 in
    let (x5, at5, r5) =
      >>=-eq-ok (guard (agrees operation.remote_size_bytes found.size_bytes) remote_file_changed) _
        r4 in
    let end : (found, hash) ≡ pair = ok_injective (found, hash) pair r5 in
    let listed = ok_or-eq-ok remote_file_missing _ at1 in
    subst
      (λ (p : FileRecord × String).
        IsExpected operation.path operation.remote_content_hash operation.remote_size_bytes
          remote_manifest.files p.0 p.1)
      end
      (record {
        listed = listed;
        at_path = find_record-path operation.path remote_manifest.files found listed;
        a_file = guard-eq-ok (is_file found.kind) remote_path_is_not_file at2;
        hash_lem = beq→eq found.content_hash (some hash) (guard-eq-ok _ remote_file_changed at4);
        queued_hash_lem =
            or_else_lem operation.remote_content_hash found.content_hash hash
              (ok_or-eq-ok remote_hash_missing _ at3);
        size_lem =
            guard-eq-ok (agrees operation.remote_size_bytes found.size_bytes) remote_file_changed
              at5;
      })
