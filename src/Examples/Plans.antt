-- ===== src/Examples/Plans.antt =====
-- Witnesses for the plans of two devices.
use syncer.Prelude.{
  ℕ, ◌≡◌, ◌≢◌, ◌↔◌, refl, true, false, Option, none, some, List, [], ◌∷◌, map, ok, arith, All, inl,
  inr, String,
}
use syncer.Prelude.Texts.{text_beq, codes}
use syncer.Prelude.BTreeMap
use syncer.Prelude.BTreeMap.{BTreeMap}
use syncer.Core.Model.{bidirectional, upload_only, download_only}
use syncer.Core.StateDb.Records.{FileRecord, local_available}
use syncer.Core.Planning.{
  upload_to_remote, download_from_remote, plan_entry, plan_manifest_sync_for_mode,
}
use syncer.Core.Planning.Decide.{
  plan_entry-upload_iff, plan_entry-download_iff, plan_entry-mirror, mirror,
}
use syncer.Core.Planning.Coverage.{find_entry, planned, find_entry-plan}
use syncer.Examples.{std_crates, laptop, phone, record_of}

abbrev here : BTreeMap FileRecord
here =
    (codes "a", record_of (codes "a") 3 "ha" local_available)
    ∷ (codes "c", record_of (codes "c") 5 "hc" local_available)
    ∷ []

abbrev there : BTreeMap FileRecord
there =
    (codes "b", record_of (codes "b") 4 "hb" local_available)
    ∷ (codes "c", record_of (codes "c") 6 "hx" local_available)
    ∷ []

plan_entry-upload_iff_example :
    (plan_entry here there bidirectional (codes "a")).action ≡ upload_to_remote
unfolding BTreeMap.get syncer.Prelude.text_beq syncer.Core.StateDb.Records.is_missing
plan_entry-upload_iff_example =
    (plan_entry-upload_iff here there bidirectional (codes "a")).1
      ((record_of (codes "a") 3 "ha" local_available, refl, refl), refl, ground arith)

plan_entry-download_iff_example :
    (plan_entry here there bidirectional (codes "b")).action ≡ download_from_remote
unfolding BTreeMap.get syncer.Prelude.text_beq syncer.Core.StateDb.Records.is_missing
plan_entry-download_iff_example =
    (plan_entry-download_iff here there bidirectional (codes "b")).1
      ((record_of (codes "b") 4 "hb" local_available, refl, refl), refl, ground arith)

not_both : {g : FileRecord} → ¬ (BTreeMap.get (codes "a") there ≡ some g)
unfolding BTreeMap.get text_beq
not_both h = ground arith

plan_entry-mirror_example :
    (plan_entry there here download_only (codes "a")).action
    ≡ mirror (plan_entry here there upload_only (codes "a")).action
plan_entry-mirror_example =
    plan_entry-mirror here there upload_only (codes "a") λ (f, g, is_f, is_g, m, n). not_both is_g

find_entry-plan_example :
    find_entry
      (codes "a")
      (plan_manifest_sync_for_mode std_crates laptop phone bidirectional).entries
    ≡ planned (codes "a") bidirectional (some (record_of (codes "a") 3 "ha" local_available)) none
unfolding syncer.Prelude.text_beq
find_entry-plan_example = find_entry-plan std_crates laptop phone bidirectional (codes "a")
