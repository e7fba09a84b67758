-- ===== src/Agent/Handler/Laws.antt =====
-- Operations on the state of an agent: taking a sequence apart, and leaving the files alone.
use syncer.Prelude.{
  ℕ, String, ◌≡◌, ◌⊎◌, inl, inr, refl, ap, Bool, true, false, Option-cases, Result, ok, err,
  map_err-eq-ok,
}
use syncer.Prelude.Texts.{Text}
use syncer.Crates.{Crates}
use syncer.Core.Scanner.{scan_into}
use syncer.Core.Scanner.Fuel.{directories}
use syncer.Agent.FileSystem.{FileSystem}
use syncer.Agent.Handler.{Device, Handler, and_then, require, ask, with_files, scan_device}

err-ne-ok : {E A : Type 0} (e : E) (a : A) → (let r : Result E A = err e in r ≡ ok a) → ⊥
err-ne-ok e a same = cc

-- A sequence that succeeds, taken apart.
pub and_then-eq-ok :
    {F : FileSystem} {E A B : Type 0} (first : Device F × Result E A) (next : A → Handler F E B)
    {d' : Device F} {b : B}
    → and_then first next ≡ (d', ok b)
    → (d : Device F) × (a : A) × (first ≡ (d, ok a)) × (next a d ≡ (d', ok b))
and_then-eq-ok (d, ok a) next same = (d, a, refl, same)
and_then-eq-ok (d, err e) next {b} same = absurd (err-ne-ok e b (ap (λ r. r.1) same))

-- The same, with names for the state and the value in between.
pub and_then-elim :
    {F : FileSystem} {E A B P : Type 0} (first : Device F × Result E A) (next : A → Handler F E B)
    {d' : Device F} {b : B}
    → and_then first next ≡ (d', ok b)
    → ((d : Device F) (a : A) → first ≡ (d, ok a) → next a d ≡ (d', ok b) → P)
    → P
and_then-elim first next same use_parts =
    let (d, a, at, rest) = and_then-eq-ok first next same in use_parts d a at rest

pub require-eq-ok :
    {F : FileSystem} {E : Type 0} (test : Bool) (e : E) (d : Device F) {d' : Device F}
    {done : Unit {0}}
    → require test e d ≡ (d', ok done)
    → (test ≡ true) × (d ≡ d')
require-eq-ok true e d same = (refl, ap (λ r. r.0) same)
require-eq-ok false e d {done} same = absurd (err-ne-ok e done (ap (λ r. r.1) same))

pub ask-eq-ok :
    {F : FileSystem} {E A : Type 0} (query : Device F → Result E A) (d : Device F) {d' : Device F}
    {a : A}
    → ask query d ≡ (d', ok a)
    → (d ≡ d') × (query d ≡ ok a)
ask-eq-ok query d same = (ap (λ r. r.0) same, ap (λ r. r.1) same)

pub with_files-eq-ok :
    {F : FileSystem} {E : Type 0} (op : F.State → F.State × Result String (Unit {0}))
    (to_error : String → E) (d : Device F) {d' : Device F} {done : Unit {0}}
    → with_files op to_error d ≡ (d', ok done)
    → (record d { files = (op d.files).0 } ≡ d') × ((op d.files).1 ≡ ok tt)
with_files-eq-ok op to_error d same =
    (ap (λ r. r.0) same, map_err-eq-ok to_error (op d.files).1 (ap (λ r. r.1) same))

-- To split on how an operation ends.
pub ending :
    {F : FileSystem} {E A : Type 0} (r : Device F × Result E A)
    → ((d : Device F) × (e : E) × (r ≡ (d, err e))) ⊎ ((d : Device F) × (a : A) × (r ≡ (d, ok a)))
ending (d, err e) = inl (d, e, refl)
ending (d, ok a) = inr (d, a, refl)

pub scan_device-files :
    (c : Crates) {F : FileSystem} (root : Text) (device_id now unix_now : ℕ) (d : Device F)
    → (scan_device c root device_id now unix_now d).0.files ≡ d.files
unfolding scan_device
scan_device-files c {F} root device_id now unix_now d =
    let found = F.directory d.files in
    elim (Option-cases
      (scan_into c root device_id now unix_now (directories found) found d.database)) [
        | inl stuck ↦ rw (stuck, scan_device) refl
        | inr (result, ended) ↦ rw (ended, scan_device) refl
      ]
