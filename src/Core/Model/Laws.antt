-- ===== src/Core/Model/Laws.antt =====
-- Device names of crates/syncer-core/src/model.rs.
use syncer.Prelude.{◌≡◌, ◌≤◌, false, true, ok, arith, length}
use syncer.Prelude.Texts.{Text}
use syncer.Prelude.Paths.{is_empty, trim}
use syncer.Prelude.Paths.Trim.{trim-trim}
use syncer.Core.Model.{has_no_control, parse_device_name}

pub record IsDeviceName (name : Text) : Type 0 where
  pub trimmed : trim name ≡ name
  pub not_empty : is_empty name ≡ false
  pub short : length name ≤ 64
  pub printable : has_no_control name ≡ true

-- A parsed name is the trimmed argument, has 1 to 64 characters, none of them a control
-- character, and no white space at its ends.
pub parse_device_name-IsDeviceName :
    (value name : Text)
    → parse_device_name value ≡ ok name
    → (name ≡ trim value) × IsDeviceName name
unfolding parse_device_name
parse_device_name-IsDeviceName value name h = (
  named,
  record {
    trimmed = rw named (trim-trim value);
    not_empty = ground arith;
    short = ground arith;
    printable = ground arith;
  },
)
  where
    named : name ≡ trim value
    named = ground arith

-- Parsing a name that has been parsed returns it.
pub parse_device_name_of_IsDeviceName :
    (name : Text) → IsDeviceName name → parse_device_name name ≡ ok name
unfolding parse_device_name
parse_device_name_of_IsDeviceName name h =
    rw h.trimmed (rw (h.not_empty, h.printable) (ground arith))
