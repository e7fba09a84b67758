-- ===== src/Agent/PeerServer/Route.antt =====
-- crates/syncer-agent/src/peer_server.rs: which handler answers a request.
pub mod Guarded
use syncer.Prelude.{
  ℕ, String, Bool, true, false, not, ◌&&◌, Option, none, some, List, [], ◌++◌, Result, ok, err,
  ok_or, map_err, ◌==◌, if◌then◌else◌, length,
}
use syncer.Prelude.Strings.{starts_with, trim_start_matches}
use syncer.Prelude.Texts.{Text, text_eq, codes}
use syncer.Core.FolderStore.{syncer_dir}
use syncer.Core.Manifest.{RelativePath}
use syncer.Agent.FileSystem.{FileSystem}
use syncer.Agent.Handler.{Device, Handler, ◌>>=◌, ◌>>◌, pure, fail, lift, ask, require}
use syncer.Agent.PathCodec.{decode_relative_path}
use syncer.Agent.PeerCrypto.{encryption_algorithm}
use syncer.Agent.PeerServer.{
  PeerServerError, io, filesystem, HttpBody, memory, file, json, invalid_request, HttpRequest, Body,
  health, presence, manifest, uploaded, deleted, failure, PeerResponse, PeerServerConfig,
  ServerCrates, Moment, memory_body, file_body,
}
use syncer.Agent.PeerServer.Auth.{verify_peer_request, required_header, required_u64_header}
use syncer.Agent.PeerServer.Folder.{
  export_folder, shared_file, write_uploaded_file, delete_shared_file,
}
use syncer.Agent.PeerServer.Http.{Stream}
use syncer.Agent.PeerServer.Http.Body.{Spool, read_request}
use syncer.Agent.PeerServer.Response.{
  json_response, error_response, encrypted_file_response, write_response,
}

-- `path` is the path of the peers' file, and `random` the nonce prefix of a response.
module _ (c : ServerCrates) (F : FileSystem) (config : PeerServerConfig) (m : Moment)
    (peers_path : Text) (random : List ℕ) where
  abbrev Answer : Type 0
  Answer = Handler F PeerServerError PeerResponse

  unfoldable pub verify : HttpRequest → Handler F PeerServerError Text
  unfolding verify_peer_request
  verify request = ask λ d.
      verify_peer_request c.agent peers_path d.peers (c.agent.core.unix_timestamp m.now) request

  unfoldable pub requested_path : HttpRequest → Handler F PeerServerError RelativePath
  unfolding decode_relative_path trim_start_matches
  requested_path request = lift (
      map_err (λ e. invalid_request)
        (decode_relative_path c.agent.core
          (trim_start_matches (length request.path) (codes "/file/") request.path)))

  unfoldable pub get_health : Answer
  get_health = lift (json_response c 200 (health true (c.agent.uuid_text config.profile.device_id)))

  unfoldable pub post_presence : HttpRequest → Answer
  unfolding verify memory_body json_response
  post_presence request = do
    secret ← verify request
    body ← lift (memory_body request.body)
    received ← lift (map_err json (c.presence_from_slice body))
    lift (
        json_response c 200 (
          presence (record {
            accepted = true;
            received_from = c.agent.uuid_text received.device_id;
            local_presence = record {
              device_id = config.profile.device_id;
              sent_at = m.now;
              agent_version = m.agent_version;
            };
          })))

  unfoldable pub get_manifest : HttpRequest → Answer
  unfolding verify export_folder json_response
  get_manifest request = do
    secret ← verify request
    exported ← export_folder c F config m
    lift (json_response c 200 (manifest exported))

  unfoldable pub get_file : HttpRequest → Answer
  unfolding verify requested_path shared_file encrypted_file_response
  get_file request = do
    shared_secret ← verify request
    path ← requested_path request
    shared ← shared_file c F config m path
    encrypted_file_response c F m random 200 shared path shared_secret

  unfoldable pub put_file : HttpRequest → Answer
  unfolding verify requested_path required_header required_u64_header write_uploaded_file file_body
      json_response
  put_file request = do
    shared_secret ← verify request
    path ← requested_path request
    expected_size ← lift (required_u64_header request (codes "x-syncer-file-size"))
    expected_hash ← lift (required_header request (codes "x-syncer-content-hash"))
    encryption ← lift (required_header request (codes "x-syncer-encryption"))
    require (encryption == encryption_algorithm) invalid_request
    nonce ← lift (required_header request (codes "x-syncer-nonce"))
    body ← lift (file_body request.body)
    response ←
        write_uploaded_file c F config m path expected_size expected_hash
          (record { shared_secret_hex = shared_secret; nonce_hex = nonce }) body
    lift (json_response c 200 (uploaded response))

  unfoldable pub delete_file : HttpRequest → Answer
  unfolding verify requested_path required_header required_u64_header delete_shared_file
      json_response
  delete_file request = do
    shared_secret ← verify request
    path ← requested_path request
    expected_size ← lift (required_u64_header request (codes "x-syncer-file-size"))
    expected_hash ← lift (required_header request (codes "x-syncer-content-hash"))
    response ← delete_shared_file c F config m path expected_size expected_hash
    lift (json_response c 200 (deleted response))

  unfoldable pub route_request : HttpRequest → Answer
  unfolding get_health post_presence get_manifest get_file put_file delete_file starts_with
      json_response
  route_request request =
      if request.method == codes "GET" && request.path == codes "/health"
      then get_health
      else if request.method == codes "POST" && request.path == codes "/presence"
      then post_presence request
      else if request.method == codes "GET" && request.path == codes "/manifest"
      then get_manifest request
      else if request.method == codes "GET" && starts_with (codes "/file/") request.path
      then get_file request
      else if request.method == codes "PUT" && starts_with (codes "/file/") request.path
      then put_file request
      else if request.method == codes "DELETE" && starts_with (codes "/file/") request.path
      then delete_file request
      else lift (json_response c 404 (failure "not_found"))

  unfoldable pub requests_dir : Text
  unfolding syncer_dir
  requests_dir =
      let push = c.agent.core.push in
      push (push (syncer_dir c.agent.core config.folder_path) (codes "tmp")) (codes "requests")

  -- The files once a request has been read: `read_file_body` has written the body of an upload to a
  -- file, before anything is verified, and nothing removes it.
  unfoldable pub spool_files : HttpBody → F.State → F.State
  unfolding requests_dir
  spool_files (memory bytes) s = s
  spool_files (file body) s = F.store (F.create_dir_all s requests_dir).0 body.path body.contents

  -- An error of a route is an answer too.
  abbrev pub respond :
      Device F × Result PeerServerError PeerResponse
      → Device F × Result PeerServerError PeerResponse
  respond (d, ok response) = (d, ok response)
  respond (d, err e) = (d, ok (error_response c e))

  -- `handle_stream` behind the reading of the request, with what the reading has written; where it breaks
  -- off, the part of the body that has arrived is left out.
  unfoldable pub answer :
      Result PeerServerError HttpRequest → Handler F PeerServerError PeerResponse
  unfolding route_request error_response spool_files
  answer (err e) d = (d, ok (error_response c e))
  answer (ok request) d =
      respond (route_request request (record d { files = spool_files request.body d.files }))

  -- What goes wrong with the file that the body of this request is spooled to.
  unfoldable pub spool : Device F → Spool
  unfolding requests_dir
  spool d =
      let made = F.create_dir_all d.files requests_dir in
      let path = c.agent.core.push requests_dir (m.fresh ++ codes ".body") in
      record {
        path = path;
        directory = map_err (filesystem requests_dir) made.1;
        output = F.output made.0 path;
      }

  -- `none` does not happen (`Agent.PeerServer.Http.Ends.read_request-Ends`).
  unfoldable pub handle_stream : Stream → Handler F PeerServerError (List ℕ)
  unfolding answer write_response read_request spool
  handle_stream stream d = elim (read_request c.agent (spool d) stream) [
    | none ↦ (d, err (io "out of fuel"))
    | some (request, rest) ↦ (answer request >>= write_response c F m) d
  ]
