-- ===== src/Examples/Agent.antt =====
-- The crates that the agent calls as simple functions, and a file system that is a list of files.
use syncer.Prelude.{
  ℕ, ◌+◌, String, ◌≡◌, refl, sym, ap, ◌∙◌, Bool, true, false, none, some, List, [], ◌∷◌, ◌++◌,
  Result, ok, err, ◌==◌, nat_eq, beq_refl, beq→eq, ◌≢◌, Bool-cases, inl, inr, if◌then◌else◌, length,
}
use syncer.Prelude.Texts.{Text, text_eq, text_beq, text_eq_iff, codes}
use syncer.Core.Scanner.{readable, finished, entry, plain_file}
use syncer.Agent.Crates.{AgentCrates, HexRoundTrips, VerifiesByComparison, HasAead}
use syncer.Agent.FileSystem.{FileSystem, IsPosix}
use syncer.Agent.PeerCrypto.{Output}
use syncer.Agent.PeerCrypto.Spec.{NeverFails}
use syncer.Agent.PeerServer.{ServerCrates, Moment}
use syncer.Examples.{std_crates}

abbrev pub zero_tag : List ℕ
zero_tag = 0 ∷ 0 ∷ 0 ∷ 0 ∷ 0 ∷ 0 ∷ 0 ∷ 0 ∷ 0 ∷ 0 ∷ 0 ∷ 0 ∷ 0 ∷ 0 ∷ 0 ∷ 0 ∷ []

abbrev pub std_agent : AgentCrates
std_agent = record {
  core = std_crates;
  hex_encode = λ bytes. bytes;
  hex_decode = λ text. ok text;
  sha256 = λ bytes. bytes;
  hmac_sha256 = λ key message. some (key ++ message);
  verify_slice = λ computed received. text_beq computed received;
  derive_key = λ context secret. secret;
  seal = λ key nonce aad plaintext. some (plaintext, zero_tag);
  unseal = λ key nonce aad ciphertext tag. some ciphertext;
  parse_uuid = λ text. if text == codes "phone" then some 2 else none;
  uuid_text = λ id. if id == 2 then codes "phone" else codes "laptop";
  add_seconds = λ now seconds. now + seconds;
}

pub std_agent-HexRoundTrips : HexRoundTrips std_agent
std_agent-HexRoundTrips bytes = refl

pub std_agent-VerifiesByComparison : VerifiesByComparison std_agent
std_agent-VerifiesByComparison computed received = text_eq_iff computed received

some_injective : (a b : List ℕ) → some a ≡ some b → a ≡ b
some_injective a b same = cc

pub std_agent-HasAead : HasAead std_agent
std_agent-HasAead = record {
  seal_lem = λ key nonce aad plaintext small. (plaintext, zero_tag, refl, refl, refl, refl);
  length-unseal = λ key nonce aad ciphertext tag {plaintext} same.
      ap length (sym (some_injective ciphertext plaintext same));
}

abbrev pub std_server : ServerCrates
std_server = record {
  agent = std_agent;
  to_vec = λ body. ok (codes "{}");
  presence_from_slice = λ bytes. err "no presence";
  with_extension = λ path extension. path ++ extension;
  parent = λ path. path;
}

abbrev pub noon : Moment
noon = record { now = 1000; unix_now = 1000; fresh = codes "id"; agent_version = "0.1.0" }

abbrev pub good_output : Output
good_output = record {
  create = ok tt;
  write_chunk = λ n. ok tt;
  write_tag = λ n. ok tt;
  sync_all = ok tt;
}

pub good_output-NeverFails : NeverFails good_output
good_output-NeverFails = record {
  created = refl;
  chunk_written = λ n. refl;
  tag_written = λ n. refl;
  synced = refl;
}

abbrev pub FileList : Type 0
FileList = List (Text × List ℕ)

abbrev pub lookup : FileList → Text → Result String (List ℕ)
lookup [] path = err "not found"
lookup ((name, contents) ∷ files) path =
    let rest = lookup files path in if name == path then ok contents else rest

abbrev pub erase : FileList → Text → FileList
erase [] path = []
erase ((name, contents) ∷ files) path =
    let rest = erase files path in if name == path then rest else (name, contents) ∷ rest

abbrev move : FileList → Text → Result String (List ℕ) → FileList × Result String (Unit {0})
move files to (ok contents) = ((to, contents) ∷ files, ok tt)
move files to (err message) = (files, err message)

abbrev reads_of : Result String (List ℕ) → Result String (List (Result String (List ℕ)))
reads_of (ok contents) = ok (ok contents ∷ [])
reads_of (err message) = err message

abbrev is_ok : Result String (List ℕ) → Bool
is_ok (ok contents) = true
is_ok (err message) = false

-- Every scan finds one file `a`.
abbrev pub file_list : FileSystem
file_list = record {
  State = FileList;
  directory = λ files. readable (entry (codes "a") (plain_file (1 ∷ 2 ∷ []) (some 100)) finished);
  contents = lookup;
  reads = λ files path. reads_of (lookup files path);
  output = λ files path. good_output;
  store = λ files path contents. (path, contents) ∷ files;
  try_exists = λ files path. ok (is_ok (lookup files path));
  remove_file = λ files path. (erase files path, ok tt);
  create_dir_all = λ files path. (files, ok tt);
  rename = λ files from to. move files to (lookup files from);
}

lookup-cons :
    (files : FileList) (path : Text) (contents : List ℕ)
    → lookup ((path, contents) ∷ files) path ≡ ok contents
lookup-cons files path contents = rw (beq_refl path) refl

failed : (message : String) → (let r : Result String (Unit {0}) = err message in r ≡ ok tt) → ⊥
failed message same = cc

lookup-move :
    (files : FileList) (to : Text) (found : Result String (List ℕ))
    → (move files to found).1 ≡ ok tt
    → lookup (move files to found).0 to ≡ found
lookup-move files to (ok contents) done = lookup-cons files to contents
lookup-move files to (err message) done = absurd (failed message done)

different :
    (name path removed : Text) → path ≢ removed → (name == removed) ≡ true → (name == path) ≡ false
different name path removed differ same = elim (Bool-cases (name == path)) [
  | inl equal ↦ absurd (differ (sym (beq→eq name path equal) ∙ beq→eq name removed same))
  | inr other ↦ other
]

lookup-erase :
    (files : FileList) (path removed : Text)
    → path ≢ removed
    → lookup (erase files removed) path ≡ lookup files path
lookup-erase [] path removed differ = refl
lookup-erase ((name, contents) ∷ files) path removed differ = elim (Bool-cases (name == removed)) [
  | inl same ↦
      let other : (name == path) ≡ false = different name path removed differ same in
      rw (same, other) (lookup-erase files path removed differ)
  | inr other ↦ rw (other, lookup-erase files path removed differ) refl
]

lookup-other :
    (files : FileList) (path stored : Text) (bytes : List ℕ)
    → path ≢ stored
    → lookup ((stored, bytes) ∷ files) path ≡ lookup files path
lookup-other files path stored bytes differ = elim (Bool-cases (stored == path)) [
  | inl same ↦ absurd (differ (sym (beq→eq stored path same)))
  | inr other ↦ rw other refl
]

pub file_list-IsPosix : IsPosix file_list
file_list-IsPosix = record {
  contents-store = lookup-cons;
  contents-store_other =
      λ files path stored bytes differ. lookup-other files path stored bytes differ;
  contents-create_dir_all = λ files path dir. refl;
  contents-rename = λ files from to done. lookup-move files to (lookup files from) done;
  contents-remove_file = lookup-erase;
}
