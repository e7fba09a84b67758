-- ===== src/Agent/PeerServer/Auth/Laws.antt =====
-- What the verification of crates/syncer-agent/src/peer_server.rs has checked.
use syncer.Prelude.{
  ℕ, ◌≤◌, ◌≡◌, refl, ◌↔◌, ok_injective, true, some, ok, >>=-eq-ok, guard-eq-ok, ok_or-eq-ok,
  map_err-eq-ok, guard, ok_or, map_err, leb, arith,
}
use syncer.Prelude.Words.{ℤ}
use syncer.Prelude.Decimal.{parse_i64}
use syncer.Prelude.Texts.{Text, codes}
use syncer.Core.JsonFile.{JsonFile}
use syncer.Agent.Crates.{AgentCrates}
use syncer.Agent.PeerStore.{PeerStoreDocument, TrustedPeer, read_or_default, trusted_peer}
use syncer.Agent.RequestSigning.{verify_request_signature_with_body_hash_hex}
use syncer.Agent.PeerServer.{HttpRequest, unauthorized, peer_store, signing}
use syncer.Agent.PeerServer.Auth.{get, abs_diff, verify_peer_request}

le_of_leb : (a b : ℕ) → leb a b ≡ true → a ≤ b
le_of_leb a b h = ground arith

leb_of_le : (a b : ℕ) → a ≤ b → leb a b ≡ true
leb_of_le a b h = ground arith

-- Who has made a request: its headers name a trusted peer, a time at most five minutes before or
-- after now, and a signature that verifies under the peer's secret.
pub record IsSigned (c : AgentCrates) (peers_path : Text) (peers_file : JsonFile PeerStoreDocument)
    (now : ℤ) (request : HttpRequest) (secret : Text) : Type 0 where
  pub device_text : Text
  pub time_text : Text
  pub signature : Text
  pub device_id : ℕ
  pub timestamp : ℤ
  pub store : PeerStoreDocument
  pub peer : TrustedPeer
  pub device_header : get (codes "x-syncer-device-id") request.headers ≡ some device_text
  pub time_header : get (codes "x-syncer-timestamp") request.headers ≡ some time_text
  pub signature_header : get (codes "x-syncer-signature") request.headers ≡ some signature
  pub device_lem : c.parse_uuid device_text ≡ some device_id
  pub time_lem : parse_i64 time_text ≡ some timestamp
  pub stored : read_or_default peers_path peers_file ≡ ok store
  pub trusted : trusted_peer device_id store ≡ some peer
  pub fresh : abs_diff now timestamp ≤ 300
  pub signed :
      verify_request_signature_with_body_hash_hex c signature request.method request.path
        (c.uuid_text device_id)
        timestamp
        request.body_sha256_hex
        peer.shared_secret_hex
      ≡ ok tt
  pub secret_lem : peer.shared_secret_hex ≡ secret

module _ (c : AgentCrates) (peers_path : Text) (peers_file : JsonFile PeerStoreDocument) (now : ℤ)
    (request : HttpRequest) (secret : Text) where
  abbrev Passes : Type 0
  Passes = verify_peer_request c peers_path peers_file now request ≡ ok secret

  Passes-IsSigned : Passes → IsSigned c peers_path peers_file now request secret
  unfolding verify_peer_request
  Passes-IsSigned passed =
      let (device_text, at1, r1) =
        >>=-eq-ok (ok_or unauthorized (get (codes "x-syncer-device-id") request.headers)) _
          passed in
      let (time_text, at2, r2) =
        >>=-eq-ok (ok_or unauthorized (get (codes "x-syncer-timestamp") request.headers)) _ r1 in
      let (timestamp, at3, r3) = >>=-eq-ok (ok_or unauthorized (parse_i64 time_text)) _ r2 in
      let (signature, at4, r4) =
        >>=-eq-ok (ok_or unauthorized (get (codes "x-syncer-signature") request.headers)) _ r3 in
      let (near, at5, r5) =
        >>=-eq-ok (guard (leb (abs_diff now timestamp) 300) unauthorized) _ r4 in
      let (device_id, at6, r6) = >>=-eq-ok (ok_or unauthorized (c.parse_uuid device_text)) _ r5 in
      let (store, at7, r7) =
        >>=-eq-ok (map_err peer_store (read_or_default peers_path peers_file)) _ r6 in
      let (peer, at8, r8) = >>=-eq-ok (ok_or unauthorized (trusted_peer device_id store)) _ r7 in
      let (verified, at9, r9) =
        >>=-eq-ok
          (map_err signing (
            verify_request_signature_with_body_hash_hex c signature request.method request.path
              (c.uuid_text device_id) timestamp request.body_sha256_hex peer.shared_secret_hex))
          _ r8 in
      record {
        device_text = device_text;
        time_text = time_text;
        signature = signature;
        device_id = device_id;
        timestamp = timestamp;
        store = store;
        peer = peer;
        device_header = ok_or-eq-ok unauthorized _ at1;
        time_header = ok_or-eq-ok unauthorized _ at2;
        signature_header = ok_or-eq-ok unauthorized _ at4;
        device_lem = ok_or-eq-ok unauthorized _ at6;
        time_lem = ok_or-eq-ok unauthorized _ at3;
        stored = map_err-eq-ok peer_store _ at7;
        trusted = ok_or-eq-ok unauthorized _ at8;
        fresh = le_of_leb _ 300 (guard-eq-ok _ unauthorized at5);
        signed = map_err-eq-ok signing _ at9;
        secret_lem = ok_injective _ _ r9;
      }

  IsSigned-passes : IsSigned c peers_path peers_file now request secret → Passes
  unfolding verify_peer_request
  IsSigned-passes s =
      rw
        (
          s.device_header,
          s.time_header,
          s.time_lem,
          s.signature_header,
          leb_of_le (abs_diff now s.timestamp) 300 s.fresh,
          s.device_lem,
          s.stored,
          s.trusted,
          s.signed,
          s.secret_lem,
        )
        refl

  -- A request passes with a secret exactly when its headers name a trusted peer with that secret, a time
  -- at most 300 seconds before or after now, and a signature that the peer's secret verifies for the
  -- request's method, path and body hash, that device and that time.
  pub verify_peer_request_iff :
      (verify_peer_request c peers_path peers_file now request ≡ ok secret)
      ↔ IsSigned c peers_path peers_file now request secret
  verify_peer_request_iff = (Passes-IsSigned, IsSigned-passes)
