-- ===== src/Agent/PathCodec.antt =====
-- crates/syncer-agent/src/path_codec.rs: relative paths in a request line.
pub mod RoundTrip
use syncer.Prelude.{
  ℕ, ◌+◌, ◌-◌, ◌*◌, ◌/◌, ◌%◌, Bool, true, false, not, ◌&&◌, ◌||◌, Option, none, some, List, [], ◌∷◌,
  ◌++◌, Result, ok, err, ◌>>=◌, ok_or, map_err, leb, ltb, ◌==◌, nat_eq, if◌then◌else◌,
}
use syncer.Prelude.Texts.{Text}
use syncer.Prelude.Utf8.{bytes, from_utf8}
use syncer.Crates.{Crates}
use syncer.Core.Error.{CoreError}
use syncer.Core.Manifest.{RelativePath, parse}

pub data PathDecodeError : Type 0 where
  invalid_percent_encoding : PathDecodeError
  invalid_utf8 : PathDecodeError
  core : CoreError → PathDecodeError

-- b'A'..=b'Z' | b'a'..=b'z' | b'0'..=b'9' | b'-' | b'.' | b'_' | b'~' | b'/'
unfoldable pub is_plain : ℕ → Bool
is_plain byte =
    (leb b'A' byte && leb byte b'Z')
    || (leb b'a' byte && leb byte b'z')
    || (leb b'0' byte && leb byte b'9')
    || byte == b'-'
    || byte == b'.'
    || byte == b'_'
    || byte == b'~'
    || byte == b'/'

-- A digit of `{:02X}`.
unfoldable pub hex_digit : ℕ → ℕ
hex_digit n = if ltb n 10 then b'0' + n else b'A' + (n - 10)

unfoldable pub encode_byte : ℕ → Text
unfolding is_plain hex_digit
encode_byte byte =
    if is_plain byte then byte ∷ [] else b'%' ∷ hex_digit (byte / 16) ∷ hex_digit (byte % 16) ∷ []

-- The loop over the bytes.
unfoldable pub encode_bytes : List ℕ → Text
unfolding encode_byte
encode_bytes [] = []
encode_bytes (byte ∷ rest) = encode_byte byte ++ encode_bytes rest

unfoldable pub encode_relative_path : RelativePath → Text
unfolding encode_bytes bytes
encode_relative_path path = encode_bytes (bytes path)

unfoldable pub hex_value : ℕ → Option ℕ
hex_value byte =
    if leb b'0' byte && leb byte b'9'
    then some (byte - b'0')
    else if leb b'a' byte && leb byte b'f'
    then some (byte - b'a' + 10)
    else if leb b'A' byte && leb byte b'F'
    then some (byte - b'A' + 10)
    else none

-- `(high << 4) | low`, where `low` has four bits.
unfoldable pub percent_byte : ℕ → ℕ → Option ℕ
unfolding hex_value
percent_byte high low = elim (hex_value high) [
  | none ↦ none
  | some h ↦ elim (hex_value low) [ none ↦ none | some l ↦ some (h * 16 + l) ]
]

-- The loop from the current index on: `%` needs two more bytes.
unfoldable pub decode_bytes : List ℕ → Result PathDecodeError (List ℕ)
unfolding percent_byte
decode_bytes [] = ok []
decode_bytes (byte ∷ []) = if byte == b'%' then err invalid_percent_encoding else ok (byte ∷ [])
decode_bytes (byte ∷ next ∷ []) = elim (byte == b'%') [
  | true ↦ err invalid_percent_encoding
  | false ↦ do rest ← decode_bytes (next ∷ []); ok (byte ∷ rest)
]
decode_bytes (byte ∷ high ∷ low ∷ input) = elim (byte == b'%') [
  | true ↦ do
    value ← ok_or invalid_percent_encoding (percent_byte high low)
    rest ← decode_bytes input
    ok (value ∷ rest)
  | false ↦ do rest ← decode_bytes (high ∷ low ∷ input); ok (byte ∷ rest)
]

unfoldable pub decode_relative_path : Crates → Text → Result PathDecodeError RelativePath
unfolding decode_bytes bytes from_utf8 parse
decode_relative_path c value = do
  input ← decode_bytes (bytes value)
  decoded ← ok_or invalid_utf8 (from_utf8 input)
  map_err core (parse c decoded)
