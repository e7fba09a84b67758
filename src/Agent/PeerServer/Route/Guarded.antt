-- ===== src/Agent/PeerServer/Route/Guarded.antt =====
-- Authorization in crates/syncer-agent/src/peer_server.rs.
use syncer.Prelude.{
  ℕ, ◌≡◌, ◌≢◌, ◌∙◌, refl, Bool, true, false, List, Result, ok, err, if◌then◌else◌, ◌==◌, ◌&&◌,
}
use syncer.Prelude.Strings.{starts_with}
use syncer.Prelude.Texts.{Text, text_eq, codes}
use syncer.Agent.FileSystem.{FileSystem, IsPosix}
use syncer.Agent.Handler.{Device, Handler, ◌>>=◌}
use syncer.Agent.PeerServer.{
  PeerServerError, HttpRequest, HttpBody, memory, file, health, failure, PeerResponse,
  PeerServerConfig, ServerCrates, Moment,
}
use syncer.Agent.PeerServer.Auth.{verify_peer_request}
use syncer.Agent.PeerServer.Response.{json_response, error_response}
use syncer.Agent.PeerServer.Route.{
  verify, get_health, post_presence, get_manifest, get_file, put_file, delete_file, route_request,
  requests_dir, spool_files, respond, answer,
}

module _ (c : ServerCrates) (F : FileSystem) (config : PeerServerConfig) (m : Moment)
    (peers_path : Text) (random : List ℕ) (d : Device F) (e : PeerServerError) where
  -- What a route gives without authorization: the error of the verification, the device's health, or that
  -- there is no such route; the device is as before.
  data Leaves (route : Handler F PeerServerError PeerResponse) : Type 0 where
    refuses : route d ≡ (d, err e) → Leaves route
    tells_health :
        route d
          ≡ (d, json_response c 200 (health true (c.agent.uuid_text config.profile.device_id)))
        → Leaves route
    finds_nothing : route d ≡ (d, json_response c 404 (failure "not_found")) → Leaves route

  either :
      (test : Bool) {x y : Handler F PeerServerError PeerResponse}
      → Leaves x
      → Leaves y
      → Leaves (if test then x else y)
  either true first second = first
  either false first second = second

  module _ (request : HttpRequest) where
    abbrev Refused : Type 0
    Refused =
        verify_peer_request c.agent peers_path d.peers (c.agent.core.unix_timestamp m.now) request
        ≡ err e

    refused :
        Refused
        → (next : Text → Handler F PeerServerError PeerResponse)
        → Leaves (verify c F config m peers_path random request >>= next)
    unfolding verify
    refused no_peer next = refuses (rw no_peer refl)

    route_request-Leaves : Refused → Leaves (route_request c F config m peers_path random request)
    unfolding route_request get_health post_presence get_manifest get_file put_file delete_file
    route_request-Leaves no_peer =
        let for_file = starts_with (codes "/file/") request.path in
        either (request.method == codes "GET" && request.path == codes "/health")
          (tells_health refl)
          (either (request.method == codes "POST" && request.path == codes "/presence")
            (refused no_peer _)
            (either (request.method == codes "GET" && request.path == codes "/manifest")
              (refused no_peer _)
              (either (request.method == codes "GET" && for_file) (refused no_peer _) (
                either (request.method == codes "PUT" && for_file) (refused no_peer _) (
                  either (request.method == codes "DELETE" && for_file) (refused no_peer _)
                    (finds_nothing refl))))))

module _ (c : ServerCrates) (F : FileSystem) (config : PeerServerConfig) (m : Moment)
    (peers_path : Text) (random : List ℕ) where
  abbrev response_of : Result PeerServerError PeerResponse → PeerResponse
  response_of (ok response) = response
  response_of (err e) = error_response c e

  -- The answers that need no authorization.
  pub data IsPublic (e : PeerServerError) (response : PeerResponse) : Type 0 where
    refused_with : response ≡ error_response c e → IsPublic e response
    health_of :
        response
          ≡ response_of
              (json_response c 200 (health true (c.agent.uuid_text config.profile.device_id)))
        → IsPublic e response
    not_found :
        response ≡ response_of (json_response c 404 (failure "not_found")) → IsPublic e response

  -- The files differ at most by the spooled body.
  abbrev pub OnlySpooled : HttpBody → F.State → F.State → Type 0
  OnlySpooled (memory bytes) s s' = s' ≡ s
  OnlySpooled (file body) s s' =
      (F.contents s' body.path ≡ ok body.contents)
      × ((path : Text) → path ≢ body.path → F.contents s' path ≡ F.contents s path)

  -- What an answer without authorization has done to the device.
  pub record IsHarmless (e : PeerServerError) (body : HttpBody) (d d' : Device F)
      (result : Result PeerServerError PeerResponse) : Type 0 where
    pub response : PeerResponse
    pub result_lem : result ≡ ok response
    pub response_lem : IsPublic e response
    pub folder_json_lem : d'.folder_json ≡ d.folder_json
    pub peers_lem : d'.peers ≡ d.peers
    pub database_lem : d'.database ≡ d.database
    pub files_lem : OnlySpooled body d.files d'.files

  spool_files-OnlySpooled :
      IsPosix F
      → (body : HttpBody) (s : F.State)
      → OnlySpooled body s (spool_files c F config m peers_path random body s)
  unfolding spool_files
  spool_files-OnlySpooled posix (memory bytes) s = refl
  spool_files-OnlySpooled posix (file body) s =
      let dir = requests_dir c F config m peers_path random in
      (
        posix.contents-store (F.create_dir_all s dir).0 body.path body.contents,
        λ path differ.
            posix.contents-store_other (F.create_dir_all s dir).0 path body.path body.contents
              differ
            ∙ posix.contents-create_dir_all s path dir,
      )

  harmless :
      (e : PeerServerError) (body : HttpBody) (d after : Device F)
      (r : Result PeerServerError PeerResponse)
      {routed : Device F × Result PeerServerError PeerResponse}
      → IsHarmless e body d after (ok (response_of r))
      → routed ≡ (after, r)
      → IsHarmless e body d
          (respond c F config m peers_path random routed).0
          (respond c F config m peers_path random routed).1
  harmless e body d after (ok response) h same = rw same h
  harmless e body d after (err f) h same = rw same h

  after_spool : HttpBody → Device F → Device F
  after_spool body d = record d { files = spool_files c F config m peers_path random body d.files }

  spooled :
      IsPosix F
      → (e : PeerServerError) (body : HttpBody) (d : Device F) (response : PeerResponse)
      → IsPublic e response
      → IsHarmless e body d (after_spool body d) (ok response)
  unfolding after_spool
  spooled posix e body d response public = record {
    response = response;
    result_lem = refl;
    response_lem = public;
    folder_json_lem = refl;
    peers_lem = refl;
    database_lem = refl;
    files_lem = spool_files-OnlySpooled posix body d.files;
  }

  -- A request whose verification fails is answered with the error of the verification, with the device's
  -- health, or with what an unknown route gets. It leaves folder.json, the peers and the database as they
  -- are, and the files up to one: the body of an upload is stored below the folder and stays there.
  pub answer-IsHarmless :
      IsPosix F
      → (e : PeerServerError) (request : HttpRequest) (d : Device F)
      → verify_peer_request c.agent peers_path d.peers (c.agent.core.unix_timestamp m.now) request
        ≡ err e
      → IsHarmless e request.body d
          (answer c F config m peers_path random (ok request) d).0
          (answer c F config m peers_path random (ok request) d).1
  unfolding answer after_spool
  answer-IsHarmless posix e request d no_peer =
      let after = after_spool request.body d in
      elim (route_request-Leaves c F config m peers_path random after e request no_peer) [
        | refuses same ↦
            harmless e request.body d after (err e)
              (spooled posix e request.body d _ (refused_with refl)) same
        | tells_health same ↦
            harmless e request.body d after _ (spooled posix e request.body d _ (health_of refl))
              same
        | finds_nothing same ↦
            harmless e request.body d after _ (spooled posix e request.body d _ (not_found refl))
              same
      ]
