-- ===== src/Core/Planning/Classify.antt =====
-- The three-way comparison with a common base.
use syncer.Prelude.{
  ◌≡◌, ◌≢◌, ◌↔◌, ◌⊎◌, refl, true, Option, none, some, arith, nat_eq, option_string_eq,
  option_string_beq, option_string_beq_iff, inr,
}
use syncer.Core.Manifest.{FileEntry}
use syncer.Core.Planning.{
  FilePresence, present, missing_known, ChangeClassification, local_only_delete, remote_only_delete,
  local_needs_download, remote_needs_upload, classify_file_presence,
}

-- What the other device calls the same situation.
abbrev pub swap_sides : ChangeClassification → ChangeClassification
swap_sides ChangeClassification.in_sync = ChangeClassification.in_sync
swap_sides local_only_delete = remote_only_delete
swap_sides remote_only_delete = local_only_delete
swap_sides local_needs_download = remote_needs_upload
swap_sides remote_needs_upload = local_needs_download
swap_sides ChangeClassification.conflict = ChangeClassification.conflict
swap_sides ChangeClassification.unknown = ChangeClassification.unknown

-- The two devices classify a file alike, up to the exchange of the sides.
pub classify_file_presence_comm :
    (a b : FilePresence) (base : Option FileEntry)
    → classify_file_presence b a base ≡ swap_sides (classify_file_presence a b base)
unfolding classify_file_presence
classify_file_presence_comm (present l) (present r) none = ground (
  arith,
  option_string_beq_iff l.content_hash r.content_hash,
  option_string_beq_iff r.content_hash l.content_hash,
)
classify_file_presence_comm (present l) (present r) (some base) = ground (
  arith,
  option_string_beq_iff l.content_hash r.content_hash,
  option_string_beq_iff r.content_hash l.content_hash,
)
classify_file_presence_comm (present l) missing_known base = refl
classify_file_presence_comm (present l) FilePresence.unknown base = refl
classify_file_presence_comm missing_known (present r) base = refl
classify_file_presence_comm missing_known missing_known base = refl
classify_file_presence_comm missing_known FilePresence.unknown base = refl
classify_file_presence_comm FilePresence.unknown (present r) base = refl
classify_file_presence_comm FilePresence.unknown missing_known base = refl
classify_file_presence_comm FilePresence.unknown FilePresence.unknown base = refl

abbrev pub SameFile : FileEntry → FileEntry → Type 0
SameFile l r = (l.content_hash ≡ r.content_hash) × (l.size_bytes ≡ r.size_bytes)

-- Two present files are a conflict exactly if they differ in hash or size and no base is known,
-- or the hashes of both differ from that of the base.
pub classify_file_presence-conflict_iff :
    (l r : FileEntry) (base : Option FileEntry)
    → (classify_file_presence (present l) (present r) base ≡ ChangeClassification.conflict) ↔ (
        (¬ SameFile l r)
        × ((base ≡ none)
            ⊎ ((b : FileEntry) × (base ≡ some b)
                × (l.content_hash ≢ b.content_hash)
                × (r.content_hash ≢ b.content_hash))))
unfolding classify_file_presence
classify_file_presence-conflict_iff l r none =
    ground (arith, option_string_beq_iff l.content_hash r.content_hash)
classify_file_presence-conflict_iff l r (some b) = (
  λ e. (ground (arith, lr), inr (b, refl, ground (arith, lb), ground (arith, rb))),
  λ (differ, base). ground (arith, lr, lb, rb),
)
  where
    lr :
        (option_string_beq l.content_hash r.content_hash ≡ true) ↔ (l.content_hash ≡ r.content_hash)
    lr = option_string_beq_iff l.content_hash r.content_hash

    lb :
        (option_string_beq l.content_hash b.content_hash ≡ true) ↔ (l.content_hash ≡ b.content_hash)
    lb = option_string_beq_iff l.content_hash b.content_hash

    rb :
        (option_string_beq r.content_hash b.content_hash ≡ true) ↔ (r.content_hash ≡ b.content_hash)
    rb = option_string_beq_iff r.content_hash b.content_hash

-- Where both hashes are that of the base, the files count as synchronized even if their sizes
-- differ.
pub classify_file_presence_sizes_ignored :
    (l r b : FileEntry)
    → l.content_hash ≡ b.content_hash
    → r.content_hash ≡ b.content_hash
    → l.size_bytes ≢ r.size_bytes
    → classify_file_presence (present l) (present r) (some b) ≡ ChangeClassification.in_sync
unfolding classify_file_presence
classify_file_presence_sizes_ignored l r b h k d = ground (
  arith,
  option_string_beq_iff l.content_hash b.content_hash,
  option_string_beq_iff r.content_hash b.content_hash,
)
