-- ===== src/Agent/PathCodec/RoundTrip.antt =====
-- Decoding what was encoded, and what the decoder accepts.
use syncer.Prelude.{
  ℕ, ◌/◌, ◌%◌, ◌<◌, ◌≡◌, refl, true, false, Bool-cases, inl, inr, some, List, [], ◌∷◌, Result, ok,
  err, >>=-eq-ok, ok_or, map_err, ltb, ◌==◌, nat_eq, All, All-append, arith,
}
use syncer.Prelude.Texts.{Text}
use syncer.Prelude.Paths.{trim}
use syncer.Prelude.Utf8.{encode_char, bytes, from_utf8, is_scalar}
use syncer.Prelude.Utf8.Laws.{IsScalar, from_utf8-bytes}
use syncer.Crates.{Crates, HasStdPaths}
use syncer.Core.Manifest.{RelativePath, parse}
use syncer.Core.Manifest.Safety.{IsSafe, parse-IsSafe}
use syncer.Core.Manifest.Stability.{parse_of_IsSafe}
use syncer.Agent.PathCodec.{
  core, is_plain, hex_digit, encode_byte, encode_bytes, encode_relative_path, hex_value,
  percent_byte, decode_bytes, decode_relative_path,
}

map_err-eq-ok {ℓ} :
    {E F : Type 0} {A : Type ℓ} (f : E → F) (m : Result E A) (a : A) → map_err f m ≡ ok a → m ≡ ok a
map_err-eq-ok f (ok b) a h = ground arith
map_err-eq-ok f (err e) a h = cc

abbrev IsByte : ℕ → Type 0
IsByte b = b < 256

abbrev IsAscii : ℕ → Type 0
IsAscii c = ltb c 0x80 ≡ true

hex_value-digit : (n : ℕ) → n < 16 → hex_value (hex_digit n) ≡ some n
unfolding hex_value hex_digit
hex_value-digit n h = ground arith

percent_byte-digits :
    (b : ℕ) → IsByte b → percent_byte (hex_digit (b / 16)) (hex_digit (b % 16)) ≡ some b
unfolding percent_byte
percent_byte-digits b h =
    ground
      (arith, hex_value-digit (b / 16) (omega (arith, h)), hex_value-digit (b % 16) (omega arith))

decode_bytes-percent :
    (high low value : ℕ) (input rest : List ℕ)
    → percent_byte high low ≡ some value
    → decode_bytes input ≡ ok rest
    → decode_bytes (b'%' ∷ high ∷ low ∷ input) ≡ ok (value ∷ rest)
unfolding decode_bytes
decode_bytes-percent high low value input rest h k = rw (h, k) refl

decode_bytes-plain :
    (byte : ℕ) (input rest : List ℕ)
    → (byte == b'%') ≡ false
    → decode_bytes input ≡ ok rest
    → decode_bytes (byte ∷ input) ≡ ok (byte ∷ rest)
unfolding decode_bytes
decode_bytes-plain byte [] rest h k = ground arith
decode_bytes-plain byte (next ∷ []) rest h k = ground arith
decode_bytes-plain byte (high ∷ low ∷ input) rest h k = ground arith

plain-not_percent : (b : ℕ) → is_plain b ≡ true → (b == b'%') ≡ false
unfolding is_plain
plain-not_percent b h = ground arith

decode_bytes-encode :
    (input : List ℕ) → All IsByte input → decode_bytes (encode_bytes input) ≡ ok input
unfolding encode_bytes encode_byte decode_bytes
decode_bytes-encode [] h = refl
decode_bytes-encode (byte ∷ input) h = elim (Bool-cases (is_plain byte)) [
  | inl plain ↦ rw plain (
      decode_bytes-plain byte (encode_bytes input) input (plain-not_percent byte plain)
        (decode_bytes-encode input h.1))
  | inr other ↦ rw other (
      decode_bytes-percent (hex_digit (byte / 16)) (hex_digit (byte % 16)) byte (encode_bytes input)
        input (percent_byte-digits byte h.0) (decode_bytes-encode input h.1))
]

-- What is encoded is ASCII, so its bytes are its characters.
bytes-ascii : (s : Text) → All IsAscii s → bytes s ≡ s
unfolding bytes encode_char
bytes-ascii [] h = refl
bytes-ascii (c ∷ s) h = rw (h.0, bytes-ascii s h.1) refl

encode_byte-IsAscii : (b : ℕ) → IsByte b → All IsAscii (encode_byte b)
unfolding encode_byte
encode_byte-IsAscii b h = elim (Bool-cases (is_plain b)) [
  | inl plain ↦ rw plain (plain-IsAscii b plain, tt)
  | inr other ↦ rw other (
    refl,
    (digit-IsAscii (b / 16) (omega (arith, h)), (digit-IsAscii (b % 16) (omega arith), tt)),
  )
]
  where
    plain-IsAscii : (b : ℕ) → is_plain b ≡ true → IsAscii b
    plain-IsAscii b h = ground arith

    digit-IsAscii : (n : ℕ) → n < 16 → IsAscii (hex_digit n)
    digit-IsAscii n h = ground arith

encode_bytes-IsAscii : (input : List ℕ) → All IsByte input → All IsAscii (encode_bytes input)
unfolding encode_bytes
encode_bytes-IsAscii [] h = tt
encode_bytes-IsAscii (b ∷ input) h =
    All-append IsAscii (encode_byte b) (encode_bytes input) (encode_byte-IsAscii b h.0)
      (encode_bytes-IsAscii input h.1)

encode_char-IsByte : (c : ℕ) → IsScalar c → All IsByte (encode_char c)
unfolding encode_char is_scalar
encode_char-IsByte c h = elim (Bool-cases (ltb c 0x80)) [
  | inl one ↦ rw one (ground arith, tt)
  | inr over ↦ elim (Bool-cases (ltb c 0x800)) [
    | inl two ↦ rw (over, two) (ground arith, (omega arith, tt))
    | inr over2 ↦ elim (Bool-cases (ltb c 0x10000)) [
      | inl three ↦ rw (over, over2, three) (ground arith, (omega arith, (omega arith, tt)))
      | inr over3 ↦
          rw (over, over2, over3) (ground arith, (omega arith, (omega arith, (omega arith, tt))))
    ]
  ]
]

bytes-IsByte : (s : Text) → All IsScalar s → All IsByte (bytes s)
unfolding bytes
bytes-IsByte [] h = tt
bytes-IsByte (c ∷ s) h =
    All-append IsByte (encode_char c) (bytes s) (encode_char-IsByte c h.0) (bytes-IsByte s h.1)

-- The decoder refuses every request whose path, once decoded, is not safe.
pub decode_relative_path-IsSafe :
    (c : Crates) (std : HasStdPaths c) (value : Text) (path : RelativePath)
    → decode_relative_path c value ≡ ok path
    → IsSafe path
unfolding decode_relative_path
decode_relative_path-IsSafe c std value path h =
    let (input, _, rest) = >>=-eq-ok (decode_bytes (bytes value)) _ h in
    let (decoded, _, parsed) = >>=-eq-ok (ok_or _ (from_utf8 input)) _ rest in
    parse-IsSafe c std decoded path (map_err-eq-ok core (parse c decoded) path parsed)

-- A safe path without white space at its ends, whose characters are Unicode scalar values, is
-- decoded from what it is encoded to.
pub decode_relative_path-encode :
    (c : Crates) (std : HasStdPaths c) (path : RelativePath)
    → IsSafe path
    → trim path ≡ path
    → All IsScalar path
    → decode_relative_path c (encode_relative_path path) ≡ ok path
unfolding decode_relative_path encode_relative_path
decode_relative_path-encode c std path safe trimmed scalar =
    let are = bytes-IsByte path scalar in
    rw
      (
        bytes-ascii (encode_bytes (bytes path)) (encode_bytes-IsAscii (bytes path) are),
        decode_bytes-encode (bytes path) are,
        from_utf8-bytes path scalar,
        parse_of_IsSafe c std path safe trimmed,
      )
      refl
