-- ===== src/Agent/PeerServer/Http/Ends.antt =====
-- Reading a request, of crates/syncer-agent/src/peer_server.rs.
use syncer.Prelude.{
  ℕ, ◌+◌, refl, inl, inr, Option, Option-cases, none, some, List, [], ok, err, nat_eq, arith,
}
use syncer.Agent.Crates.{AgentCrates}
use syncer.Agent.PeerServer.{ServerResult, HttpBody}
use syncer.Agent.PeerServer.Http.{split_header, parse_head, RequestHead, Stream, max_header_bytes}
use syncer.Agent.PeerServer.Http.Body.{
  parse_request, with_body, with_head, with_buffer, Spool, read_body, read_request,
}
use syncer.Agent.PeerServer.Http.Loops.{Ends, read_head-Ends}
use syncer.Agent.PeerServer.Http.Bodies.{none-ne-some, body_none-ne-some, read_body-HasLength}

with_body-Ends :
    (c : AgentCrates) (head : RequestHead) (x : Option (ServerResult HttpBody × Stream))
    → Ends x
    → Ends (with_body c head x)
with_body-Ends c head none (r, ended) = absurd (body_none-ne-some r ended)
with_body-Ends c head (some (err e, rest)) ends = (_, refl)
with_body-Ends c head (some (ok body, rest)) ends = (_, refl)

with_head-Ends :
    (c : AgentCrates) (spool : Spool) (prefix : List ℕ) (stream : Stream)
    (r : ServerResult RequestHead)
    → Ends (with_head c spool prefix stream r)
with_head-Ends c spool prefix stream (err e) = (_, refl)
with_head-Ends c spool prefix stream (ok head) =
    with_body-Ends c head (read_body c spool head prefix stream)
      (read_body-HasLength c spool head prefix stream).0

parse_request-Ends :
    (c : AgentCrates) (spool : Spool) (buffer : List ℕ) (stream : Stream)
    → Ends (parse_request c spool buffer stream)
unfolding parse_request
parse_request-Ends c spool buffer stream = elim (Option-cases (split_header buffer)) [
  | inl missing ↦ rw (missing, parse_request) (_, refl)
  | inr ((header_bytes, prefix), found) ↦
      rw (found, parse_request) (with_head-Ends c spool prefix stream (parse_head header_bytes))
]

with_buffer-Ends :
    (c : AgentCrates) (spool : Spool) (x : Option (ServerResult (List ℕ) × Stream))
    → Ends x
    → Ends (with_buffer c spool x)
with_buffer-Ends c spool none (r, ended) = absurd (none-ne-some r ended)
with_buffer-Ends c spool (some (err e, rest)) ends = (_, refl)
with_buffer-Ends c spool (some (ok buffer, rest)) ends = parse_request-Ends c spool buffer rest

-- Reading a request ends with a request or an error, whatever arrives and whatever its head states: the
-- fuel that the loop over the head is given is enough.
pub read_request-Ends :
    (c : AgentCrates) (spool : Spool) (stream : Stream) → Ends (read_request c spool stream)
unfolding read_request
read_request-Ends c spool stream =
    with_buffer-Ends c spool _
      (read_head-Ends (max_header_bytes + 1) [] stream (omega arith) (omega arith))
