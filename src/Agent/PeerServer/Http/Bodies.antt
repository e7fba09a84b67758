-- ===== src/Agent/PeerServer/Http/Bodies.antt =====
-- Reading the body of a request, of crates/syncer-agent/src/peer_server.rs.
use syncer.Prelude.{
  ℕ, ◌*◌, ◌≤◌, ◌≡◌, refl, Bool-cases, inl, inr, Option, none, some, List, ok, err, ltb, nat_eq,
  length, arith,
}
use std.Path.{subst}
use syncer.Prelude.Texts.{Text}
use syncer.Agent.Crates.{AgentCrates}
use syncer.Agent.PeerCrypto.{Output}
use syncer.Agent.PeerServer.{
  ServerResult, PeerServerError, invalid_request, request_too_large, HttpBody, memory, file,
}
use syncer.Agent.PeerServer.Http.{max_memory_body_bytes, RequestHead, Stream}
use syncer.Agent.PeerServer.Http.Body.{
  spooled, in_memory, Spool, spool_error, write_prefix, with_stream, sync_after, read_memory_body,
  read_file_body, read_body, should_spool_body,
}
use syncer.Agent.PeerServer.Http.Loops.{
  Ends, ReadUpTo, read_up_to-reads, err_read, read-ne, result_ending,
}

read_memory_body-reads :
    (prefix : List ℕ) (content_length : ℕ) (stream : Stream)
    → ReadUpTo content_length (read_memory_body prefix content_length stream)
unfolding read_memory_body
read_memory_body-reads prefix content_length stream =
    elim (Bool-cases (ltb max_memory_body_bytes content_length)) [
      | inl large ↦ rw large (err_read content_length request_too_large stream)
      | inr small ↦ elim (Bool-cases (ltb content_length (length prefix))) [
        | inl over ↦ rw (small, over) (err_read content_length invalid_request stream)
        | inr fits ↦
            rw (small, fits)
              (read_up_to-reads 4096 (λ at. ok tt) content_length content_length prefix stream
                (ground arith) (omega arith))
      ]
    ]

-- A memory body is no larger than a memory body may be.
read_memory_body-small :
    (prefix : List ℕ) (content_length : ℕ) (stream : Stream) (body : List ℕ) (rest : Stream)
    → read_memory_body prefix content_length stream ≡ some (ok body, rest)
    → content_length ≤ max_memory_body_bytes
unfolding read_memory_body
read_memory_body-small prefix content_length stream body rest same =
    elim (Bool-cases (ltb max_memory_body_bytes content_length)) [
      | inl large ↦ absurd (read-ne request_too_large body stream rest (rw large at same))
      | inr small ↦ ground arith
    ]

with_stream-reads :
    (content_length : ℕ) (stream : Stream) (r : ServerResult (Unit {0}))
    (next : Option (ServerResult (List ℕ) × Stream))
    → ReadUpTo content_length next
    → ReadUpTo content_length (with_stream stream r next)
with_stream-reads content_length stream (ok done) next reads = reads
with_stream-reads content_length stream (err e) next reads = err_read content_length e stream

sync_after-reads :
    (content_length : ℕ) (path : Text) (o : Output) (next : Option (ServerResult (List ℕ) × Stream))
    → ReadUpTo content_length next
    → ReadUpTo content_length (sync_after path o next)
sync_after-reads content_length path o none reads = reads
sync_after-reads content_length path o (some (err e, rest)) reads = err_read content_length e rest
sync_after-reads content_length path o (some (ok body, rest)) reads =
    elim (result_ending (spool_error path o.sync_all)) [
      | inl (e, failed) ↦ rw failed (err_read content_length e rest)
      | inr done ↦ rw done reads
    ]

read_file_body-reads :
    (spool : Spool) (prefix : List ℕ) (content_length : ℕ) (stream : Stream)
    → ReadUpTo content_length (read_file_body spool prefix content_length stream)
unfolding read_file_body
read_file_body-reads spool prefix content_length stream =
    elim (Bool-cases (ltb content_length (length prefix))) [
      | inl over ↦ rw over (err_read content_length invalid_request stream)
      | inr fits ↦ rw fits (
          with_stream-reads content_length stream spool.directory _ (
            with_stream-reads content_length stream (spool_error spool.path spool.output.create) _ (
              with_stream-reads content_length stream (write_prefix spool prefix) _ (
                sync_after-reads content_length spool.path spool.output _ (
                  read_up_to-reads (64 * 1024)
                    (λ at. spool_error spool.path (spool.output.write_chunk at)) content_length
                    content_length prefix stream (ground arith) (omega arith))))))
    ]

-- The body of a request whose head states `content_length`.
abbrev pub HasLength : ℕ → HttpBody → Type 0
HasLength content_length (memory body) =
    (length body ≡ content_length) × (content_length ≤ max_memory_body_bytes)
HasLength content_length (file body) =
    (length body.contents ≡ content_length) × (body.size_bytes ≡ content_length)

abbrev pub ReadsBody : ℕ → Option (ServerResult HttpBody × Stream) → Type 0
ReadsBody content_length x =
    Ends x
    × ((body : HttpBody) (rest : Stream) → x ≡ some (ok body, rest) → HasLength content_length body)

body-ne :
    (e : PeerServerError) (body : HttpBody) (s t : Stream)
    → (let x : Option (ServerResult HttpBody × Stream) = some (err e, s) in x ≡ some (ok body, t))
    → ⊥
body-ne e body s t same = cc

body_injective :
    (a b : HttpBody) (s t : Stream)
    → (let x : Option (ServerResult HttpBody × Stream) = some (ok a, s) in x ≡ some (ok b, t))
    → a ≡ b
body_injective a b s t same = cc

pub none-ne-some :
    (r : ServerResult (List ℕ) × Stream)
    → (let x : Option (ServerResult (List ℕ) × Stream) = none in x ≡ some r)
    → ⊥
none-ne-some r same = cc

pub body_none-ne-some :
    (r : ServerResult HttpBody × Stream)
    → (let x : Option (ServerResult HttpBody × Stream) = none in x ≡ some r)
    → ⊥
body_none-ne-some r same = cc

spooled-reads :
    (c : AgentCrates) (path : Text) (content_length : ℕ)
    (x : Option (ServerResult (List ℕ) × Stream))
    → ReadUpTo content_length x
    → ReadsBody content_length (spooled c path content_length x)
spooled-reads c path content_length none ((r, ended), reads) = absurd (none-ne-some r ended)
spooled-reads c path content_length (some (err e, rest)) reads =
    ((_, refl), λ body after same. absurd (body-ne e body rest after same))
spooled-reads c path content_length (some (ok contents, rest)) (ended, reads) = (
  (_, refl),
  λ body after same.
      subst (HasLength content_length) (body_injective _ body rest after same)
        (reads contents rest refl, refl),
)

in_memory-reads :
    (content_length : ℕ) (x : Option (ServerResult (List ℕ) × Stream))
    → ReadUpTo content_length x
    → ((body : List ℕ) (rest : Stream)
        → x ≡ some (ok body, rest)
        → content_length ≤ max_memory_body_bytes)
    → ReadsBody content_length (in_memory x)
in_memory-reads content_length none ((r, ended), reads) small = absurd (none-ne-some r ended)
in_memory-reads content_length (some (err e, rest)) reads small =
    ((_, refl), λ body after same. absurd (body-ne e body rest after same))
in_memory-reads content_length (some (ok contents, rest)) (ended, reads) small = (
  (_, refl),
  λ body after same.
      subst (HasLength content_length) (body_injective (memory contents) body rest after same)
        (reads contents rest refl, small contents rest refl),
)

-- Reading a body ends. A body that is read has exactly the length that the head states, in a file as in
-- memory, and in memory it is at most 1 MiB.
pub read_body-HasLength :
    (c : AgentCrates) (spool : Spool) (head : RequestHead) (prefix : List ℕ) (stream : Stream)
    → ReadsBody head.content_length (read_body c spool head prefix stream)
unfolding read_body
read_body-HasLength c spool head prefix stream =
    elim (Bool-cases (should_spool_body head.method head.path head.content_length)) [
      | inl spools ↦ rw spools (
          spooled-reads c spool.path head.content_length _
            (read_file_body-reads spool prefix head.content_length stream))
      | inr keeps ↦ rw keeps (
          in_memory-reads head.content_length _
            (read_memory_body-reads prefix head.content_length stream)
            (read_memory_body-small prefix head.content_length stream))
    ]
