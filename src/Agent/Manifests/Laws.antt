-- ===== src/Agent/Manifests/Laws.antt =====
-- What is found in a list of file records.
use syncer.Prelude.{◌≡◌, some, List, [], ◌∷◌, arith}
use syncer.Prelude.Paths.Same.{IsSamePath, same_path-IsSamePath}
use syncer.Core.Manifest.{RelativePath}
use syncer.Core.StateDb.Records.{FileRecord}
use syncer.Agent.Manifests.{find_record}

pub find_record-path :
    (path : RelativePath) (records : List FileRecord) (found : FileRecord)
    → find_record path records ≡ some found
    → IsSamePath found.path path
unfolding find_record
find_record-path path [] found same = cc
find_record-path path (first ∷ records) found same =
    ground (arith, same_path-IsSamePath first.path path, find_record-path path records found)
