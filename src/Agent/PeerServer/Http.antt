-- ===== src/Agent/PeerServer/Http.antt =====
-- crates/syncer-agent/src/peer_server.rs: how a request is read from a stream.
pub mod Body
pub mod Bodies
pub mod Ends
pub mod Loops
use syncer.Prelude.{
  ℕ, zero, suc, ◌+◌, ◌-◌, ◌*◌, min, String, Bool, true, false, not, ◌&&◌, Option, none, some, List,
  [], ◌∷◌, ◌++◌, Result, ok, err, ◌>>=◌, ◌>>◌, guard, ok_or, leb, ltb, ◌==◌, nat_eq, if◌then◌else◌,
  length,
}
use syncer.Prelude.Lists.{split_at}
use syncer.Prelude.Words.{u64_max}
use syncer.Prelude.Decimal.{parse_unsigned}
use syncer.Prelude.Paths.{trim}
use syncer.Prelude.Strings.{
  lines, split_once, until, split_whitespace, starts_with, to_ascii_lowercase,
}
use syncer.Prelude.Texts.{Text, text_eq, codes}
use syncer.Prelude.Utf8.{from_utf8}
use syncer.Agent.Crates.{AgentCrates}
use syncer.Agent.PeerCrypto.{Output}
use syncer.Agent.PeerServer.{
  PeerServerError, ServerResult, io, filesystem, invalid_request, request_too_large,
  request_timeout, HttpRequest, HttpBody, memory, file, FileBody, body_sha256_hex,
}
use syncer.Agent.PeerServer.Auth.{get}

abbrev pub max_header_bytes : ℕ
max_header_bytes = 16 * 1024

abbrev pub max_memory_body_bytes : ℕ
max_memory_body_bytes = 1024 * 1024

-- What arrives: bytes, nothing until the timeout, or an error. Behind the last arrival the stream
-- has ended.
pub data Arrival : Type 0 where
  arrived : List ℕ → Arrival
  timed_out : Arrival
  broken : String → Arrival

abbrev pub Stream : Type 0
Stream = List Arrival

abbrev put_back : List ℕ → Stream → Stream
put_back [] stream = stream
put_back (b ∷ rest) stream = arrived (b ∷ rest) ∷ stream

-- `timeout(REQUEST_TIMEOUT, stream.read(buffer))` for a buffer of `limit` bytes.
unfoldable pub read_some : ℕ → Stream → ServerResult (List ℕ) × Stream
read_some limit [] = (ok [], [])
read_some limit (timed_out ∷ stream) = (err request_timeout, stream)
read_some limit (broken message ∷ stream) = (err (io message), stream)
read_some limit (arrived input ∷ stream) =
    let (now, later) = split_at limit input in (ok now, put_back later stream)

abbrev starts_crlf_crlf : List ℕ → Bool
starts_crlf_crlf (a ∷ b ∷ c ∷ d ∷ rest) = a == b'\r' && b == b'\n' && c == b'\r' && d == b'\n'
starts_crlf_crlf short = false

-- The header, and the body behind the empty line that `find_header_end` looks for.
unfoldable pub split_header : List ℕ → Option (List ℕ × List ℕ)
split_header [] = none
split_header (b ∷ rest) = elim (starts_crlf_crlf (b ∷ rest)) [
  | true ↦ some ([], (split_at 4 (b ∷ rest)).1)
  | false ↦ elim (split_header rest) [ none ↦ none | some (header, body) ↦ some (b ∷ header, body) ]
]

unfoldable pub has_header : List ℕ → Bool
unfolding split_header
has_header buffer = elim (split_header buffer) [ none ↦ false | some parts ↦ true ]

-- The loop of `read_request`, on fuel.
unfoldable pub read_head : ℕ → List ℕ → Stream → Option (ServerResult (List ℕ) × Stream)
unfolding read_some has_header
read_head zero buffer stream = none
read_head (suc fuel) buffer stream =
    let (now, rest) = read_some 4096 stream in
    elim now [
      | err e ↦ some (err e, rest)
      | ok [] ↦ some (ok buffer, rest)
      | ok (b ∷ more) ↦
          let next = read_head fuel (buffer ++ b ∷ more) rest in
          if ltb max_header_bytes (length (buffer ++ b ∷ more))
          then some (err request_too_large, rest)
          else if has_header (buffer ++ b ∷ more)
          then some (ok (buffer ++ b ∷ more), rest)
          else next
    ]

-- `headers.insert(key, value)` for each line with a colon.
unfoldable pub collect_headers : List (Text × Text) → List Text → List (Text × Text)
unfolding split_once trim to_ascii_lowercase
collect_headers headers [] = headers
collect_headers headers (line ∷ rest) = elim (split_once b':' line) [
  | none ↦ collect_headers headers rest
  | some (key, value) ↦ collect_headers ((to_ascii_lowercase (trim key), trim value) ∷ headers) rest
]

abbrev pub skip_one : List Text → List Text
skip_one [] = []
skip_one (line ∷ rest) = rest

abbrev pub first {ℓ} : {A : Type ℓ} → List A → Option A
first [] = none
first (x ∷ xs) = some x

unfoldable pub parse_headers : List ℕ → ServerResult (List (Text × Text))
unfolding from_utf8 lines collect_headers
parse_headers header_bytes = do
  text ← ok_or invalid_request (from_utf8 header_bytes)
  ok (collect_headers [] (skip_one (lines text)))

pub record RequestHead : Type 0 where
  pub method : Text
  pub path : Text
  pub headers : List (Text × Text)
  pub content_length : ℕ

unfoldable pub content_length_of : List (Text × Text) → ℕ
unfolding get parse_unsigned
content_length_of headers = elim (get (codes "content-length") headers) [
  | none ↦ 0
  | some value ↦ elim (parse_unsigned u64_max value) [ none ↦ 0 | some n ↦ n ]
]

-- `parse_request` up to the body.
unfoldable pub parse_head : List ℕ → ServerResult RequestHead
unfolding parse_headers split_whitespace until content_length_of
parse_head header_bytes = do
  headers ← parse_headers header_bytes
  text ← ok_or invalid_request (from_utf8 header_bytes)
  request_line ← ok_or invalid_request (first (lines text))
  method ← ok_or invalid_request (first (split_whitespace request_line))
  target ← ok_or invalid_request (first (skip_one (split_whitespace request_line)))
  ok (record {
    method = method;
    path = until b'?' target;
    headers = headers;
    content_length = content_length_of headers;
  })
