-- ===== src/Agent/PeerServer/Http/Body.antt =====
-- crates/syncer-agent/src/peer_server.rs: how the body of a request is read, and the request as a whole.
use syncer.Prelude.{
  ℕ, zero, suc, ◌+◌, ◌-◌, ◌*◌, min, String, Bool, true, false, ◌&&◌, Option, none, some, List, [],
  ◌∷◌, ◌++◌, Result, ok, err, ◌>>=◌, ltb, ◌==◌, nat_eq, if◌then◌else◌, length,
}
use syncer.Prelude.Strings.{starts_with}
use syncer.Prelude.Texts.{Text, text_eq, codes}
use syncer.Agent.Crates.{AgentCrates}
use syncer.Agent.PeerCrypto.{Output}
use syncer.Agent.PeerServer.{
  ServerResult, filesystem, invalid_request, request_too_large, HttpRequest, HttpBody, memory, file,
  body_sha256_hex,
}
use syncer.Agent.PeerServer.Http.{
  max_header_bytes, max_memory_body_bytes, Stream, read_some, split_header, read_head, RequestHead,
  parse_head,
}

unfoldable pub should_spool_body : Text → Text → ℕ → Bool
unfolding starts_with
should_spool_body method path content_length =
    method == codes "PUT" && starts_with (codes "/file/") path && ltb 0 content_length

-- The loop that reads up to the content length with a buffer of that size, on fuel; a fault of
-- writing what was read ends it.
unfoldable pub read_up_to :
    ℕ
    → (ℕ → ServerResult (Unit {0}))
    → ℕ
    → ℕ
    → List ℕ
    → Stream
    → Option (ServerResult (List ℕ) × Stream)
unfolding read_some
read_up_to buffer_size write content_length zero body stream =
    if ltb (length body) content_length then none else some (ok body, stream)
read_up_to buffer_size write content_length (suc fuel) body stream =
    elim (ltb (length body) content_length) [
      | false ↦ some (ok body, stream)
      | true ↦
          let (now, rest) = read_some (min (content_length - length body) buffer_size) stream in
          elim now [
            | err e ↦ some (err e, rest)
            | ok [] ↦ some (err invalid_request, rest)
            | ok (b ∷ more) ↦ elim (write (length body)) [
              | err e ↦ some (err e, rest)
              | ok written ↦
                  read_up_to buffer_size write content_length fuel (body ++ b ∷ more) rest
            ]
          ]
    ]

unfoldable pub read_memory_body : List ℕ → ℕ → Stream → Option (ServerResult (List ℕ) × Stream)
unfolding read_up_to
read_memory_body prefix content_length stream =
    if ltb max_memory_body_bytes content_length
    then some (err request_too_large, stream)
    else if ltb content_length (length prefix)
    then some (err invalid_request, stream)
    else read_up_to 4096 (λ at. ok tt) content_length content_length prefix stream

-- What goes wrong with the file that a body is spooled to: creating its directory, and the file.
pub record Spool : Type 0 where
  pub path : Text
  pub directory : ServerResult (Unit {0})
  pub output : Output

abbrev pub spool_error : Text → Result String (Unit {0}) → ServerResult (Unit {0})
spool_error path (ok done) = ok done
spool_error path (err message) = err (filesystem path message)

abbrev pub with_stream :
    Stream
    → ServerResult (Unit {0})
    → Option (ServerResult (List ℕ) × Stream)
    → Option (ServerResult (List ℕ) × Stream)
with_stream stream (err e) next = some (err e, stream)
with_stream stream (ok done) next = next

abbrev pub sync_after :
    Text
    → Output
    → Option (ServerResult (List ℕ) × Stream)
    → Option (ServerResult (List ℕ) × Stream)
sync_after path o none = none
sync_after path o (some (err e, rest)) = some (err e, rest)
sync_after path o (some (ok body, rest)) =
    some (spool_error path o.sync_all >>= (λ done. ok body), rest)

abbrev pub write_prefix : Spool → List ℕ → ServerResult (Unit {0})
write_prefix spool [] = ok tt
write_prefix spool (b ∷ prefix) = spool_error spool.path (spool.output.write_chunk 0)

-- `read_file_body`, with the contents of the file that is written.
unfoldable pub read_file_body :
    Spool → List ℕ → ℕ → Stream → Option (ServerResult (List ℕ) × Stream)
unfolding read_up_to
read_file_body spool prefix content_length stream =
    if ltb content_length (length prefix)
    then some (err invalid_request, stream)
    else with_stream stream spool.directory (
        with_stream stream (spool_error spool.path spool.output.create) (
          with_stream stream (write_prefix spool prefix) (
            sync_after spool.path spool.output (
              read_up_to (64 * 1024) (λ at. spool_error spool.path (spool.output.write_chunk at))
                content_length content_length prefix stream))))

abbrev pub spooled :
    AgentCrates
    → Text
    → ℕ
    → Option (ServerResult (List ℕ) × Stream)
    → Option (ServerResult HttpBody × Stream)
spooled c path content_length none = none
spooled c path content_length (some (err e, rest)) = some (err e, rest)
spooled c path content_length (some (ok contents, rest)) = some (
  ok (
      file (record {
        path = path;
        size_bytes = content_length;
        sha256_hex = c.hex_encode (c.sha256 contents);
        contents = contents;
      })),
  rest,
)

abbrev pub in_memory :
    Option (ServerResult (List ℕ) × Stream) → Option (ServerResult HttpBody × Stream)
in_memory none = none
in_memory (some (err e, rest)) = some (err e, rest)
in_memory (some (ok contents, rest)) = some (ok (memory contents), rest)

-- The body, as the head asks for it.
unfoldable pub read_body :
    AgentCrates → Spool → RequestHead → List ℕ → Stream → Option (ServerResult HttpBody × Stream)
unfolding should_spool_body read_file_body read_memory_body
read_body c spool head prefix stream =
    if should_spool_body head.method head.path head.content_length
    then spooled c spool.path head.content_length
        (read_file_body spool prefix head.content_length stream)
    else in_memory (read_memory_body prefix head.content_length stream)

abbrev pub with_body :
    AgentCrates
    → RequestHead
    → Option (ServerResult HttpBody × Stream)
    → Option (ServerResult HttpRequest × Stream)
with_body c head none = none
with_body c head (some (err e, rest)) = some (err e, rest)
with_body c head (some (ok body, rest)) = some (
  ok (record {
    method = head.method;
    path = head.path;
    headers = head.headers;
    body_sha256_hex = body_sha256_hex c body;
    body = body;
  }),
  rest,
)

abbrev pub with_head :
    AgentCrates
    → Spool
    → List ℕ
    → Stream
    → ServerResult RequestHead
    → Option (ServerResult HttpRequest × Stream)
with_head c spool prefix stream (err e) = some (err e, stream)
with_head c spool prefix stream (ok head) = with_body c head (read_body c spool head prefix stream)

-- `parse_request`
unfoldable pub parse_request :
    AgentCrates → Spool → List ℕ → Stream → Option (ServerResult HttpRequest × Stream)
unfolding parse_head split_header
parse_request c spool buffer stream = elim (split_header buffer) [
  | none ↦ some (err invalid_request, stream)
  | some (header_bytes, prefix) ↦ with_head c spool prefix stream (parse_head header_bytes)
]

abbrev pub with_buffer :
    AgentCrates
    → Spool
    → Option (ServerResult (List ℕ) × Stream)
    → Option (ServerResult HttpRequest × Stream)
with_buffer c spool none = none
with_buffer c spool (some (err e, rest)) = some (err e, rest)
with_buffer c spool (some (ok buffer, rest)) = parse_request c spool buffer rest

-- `read_request`, with the fuel that its first loop needs.
unfoldable pub read_request :
    AgentCrates → Spool → Stream → Option (ServerResult HttpRequest × Stream)
unfolding read_head
read_request c spool stream = with_buffer c spool (read_head (max_header_bytes + 1) [] stream)
