-- ===== src/Agent/PeerClient/Response.antt =====
-- crates/syncer-agent/src/peer_client.rs: what the client makes of a response.
pub mod Received
use syncer.Prelude.{
  ℕ, String, Bool, not, Option, none, some, List, [], ◌∷◌, Result, ok, err, ◌>>=◌, ◌>>◌, guard,
  ok_or, map_err, ◌==◌, nat_eq,
}
use syncer.Prelude.Decimal.{parse_unsigned}
use syncer.Prelude.Strings.{lines, split_whitespace}
use syncer.Prelude.Texts.{Text, text_eq, codes}
use syncer.Prelude.Utf8.{from_utf8}
use syncer.Prelude.Words.{u64_max}
use syncer.Core.Manifest.{RelativePath}
use syncer.Agent.Crates.{AgentCrates}
use syncer.Agent.PeerClient.{
  PeerClientError, json, invalid_response, http_status, unexpected_content_length, peer_crypto,
  TransferredFile,
}
use syncer.Agent.PeerCrypto.{Output, encrypted_len, encryption_algorithm, decrypt_file_to_path}
use syncer.Agent.PeerServer.{Headers}
use syncer.Agent.PeerServer.Auth.{get}
use syncer.Agent.PeerServer.Http.{split_header, collect_headers, first, skip_one}

-- The second word of the first line, as a u16.
unfoldable pub status_of : Text → Result PeerClientError ℕ
unfolding lines split_whitespace parse_unsigned
status_of header = do
  status_line ← ok_or invalid_response (first (lines header))
  word ← ok_or invalid_response (first (skip_one (split_whitespace status_line)))
  ok_or invalid_response (parse_unsigned 65535 word)

-- `parse_json_response`, with `from_slice` for the type of the answer.
unfoldable pub parse_json_response :
    {R : Type 0} → (List ℕ → Result String R) → List ℕ → Result PeerClientError R
unfolding split_header from_utf8 status_of
parse_json_response from_slice response = do
  (header_bytes, body) ← ok_or invalid_response (split_header response)
  header ← ok_or invalid_response (from_utf8 header_bytes)
  status ← status_of header
  guard (status == 200) (http_status status)
  map_err json (from_slice body)

pub record ResponseHead : Type 0 where
  pub status : ℕ
  pub content_length : ℕ
  pub headers : Headers

unfoldable pub parse_response_headers : Text → Headers
unfolding lines collect_headers
parse_response_headers header = collect_headers [] (skip_one (lines header))

-- `read_response_head` behind its loop, which ends with the empty line.
unfoldable pub parse_response_head : List ℕ → Result PeerClientError ResponseHead
unfolding split_header from_utf8 status_of parse_response_headers get parse_unsigned
parse_response_head bytes = do
  (header_bytes, body) ← ok_or invalid_response (split_header bytes)
  header ← ok_or invalid_response (from_utf8 header_bytes)
  status ← status_of header
  text ← ok_or invalid_response (get (codes "content-length") (parse_response_headers header))
  content_length ← ok_or invalid_response (parse_unsigned u64_max text)
  ok (record {
    status = status;
    content_length = content_length;
    headers = parse_response_headers header;
  })

-- The checks of `fetch_file_to_path` on the head: the nonce and the hash that it states.
unfoldable pub accept_head : ℕ → ResponseHead → Result PeerClientError (Text × Text)
unfolding get encrypted_len
accept_head size_bytes head = do
  guard (head.status == 200) (http_status head.status)
  encryption ← ok_or invalid_response (get (codes "x-syncer-encryption") head.headers)
  guard (encryption == encryption_algorithm) invalid_response
  nonce ← ok_or invalid_response (get (codes "x-syncer-nonce") head.headers)
  content_hash ← ok_or invalid_response (get (codes "x-syncer-content-hash") head.headers)
  guard (head.content_length == encrypted_len size_bytes)
      (unexpected_content_length (encrypted_len size_bytes) head.content_length)
  ok (nonce, content_hash)

-- What `fetch_file_to_path` does with the body, whose nonce and hash the head states.
unfoldable pub open_file :
    AgentCrates
    → Output
    → Text
    → RelativePath
    → ℕ
    → Text
    → Text
    → List ℕ
    → Result PeerClientError (TransferredFile × List ℕ)
unfolding decrypt_file_to_path
open_file c destination shared_secret_hex path size_bytes nonce content_hash body = do
  (decrypted, plaintext) ← map_err peer_crypto (
      decrypt_file_to_path c (ok body) destination shared_secret_hex nonce (record {
        direction = codes "download";
        path = path;
        content_hash = content_hash;
        plaintext_size = size_bytes;
      }))
  ok (
    record { size_bytes = decrypted.size_bytes; content_hash = decrypted.content_hash },
    plaintext,
  )

-- What `fetch_file_to_path` does with the head and the body, with the contents of the destination.
unfoldable pub receive_file :
    AgentCrates
    → Output
    → Text
    → RelativePath
    → ℕ
    → ResponseHead
    → List ℕ
    → Result PeerClientError (TransferredFile × List ℕ)
unfolding accept_head open_file
receive_file c destination shared_secret_hex path size_bytes head body = do
  (nonce, content_hash) ← accept_head size_bytes head
  open_file c destination shared_secret_hex path size_bytes nonce content_hash body
