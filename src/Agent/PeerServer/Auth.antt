-- ===== src/Agent/PeerServer/Auth.antt =====
-- crates/syncer-agent/src/peer_server.rs: who may make a request.
pub mod Laws
use syncer.Prelude.{
  ℕ, suc, ◌+◌, ◌-◌, String, Bool, not, Option, none, some, List, [], ◌∷◌, Result, ok, err, ◌>>=◌,
  ◌>>◌, guard, ok_or, map_err, leb, ◌==◌, nat_eq, if◌then◌else◌,
}
use syncer.Prelude.Words.{ℤ, pos, negsuc, u64_max}
use syncer.Prelude.Texts.{Text, text_eq, codes}
use syncer.Prelude.Decimal.{parse_i64, parse_unsigned}
use syncer.Core.JsonFile.{JsonFile}
use syncer.Agent.Crates.{AgentCrates}
use syncer.Agent.PeerStore.{PeerStoreDocument, TrustedPeer, read_or_default, trusted_peer}
use syncer.Agent.RequestSigning.{verify_request_signature_with_body_hash_hex}
use syncer.Agent.PeerServer.{
  PeerServerError, ServerResult, HttpRequest, Headers, invalid_request, unauthorized, peer_store,
  signing,
}

-- `headers.get(name)`
unfoldable pub get : Text → Headers → Option Text
get name [] = none
get name ((key, value) ∷ headers) =
    let rest = get name headers in if key == name then some value else rest

unfoldable pub required_header : HttpRequest → Text → ServerResult Text
unfolding get
required_header request name = ok_or invalid_request (get name request.headers)

unfoldable pub required_u64_header : HttpRequest → Text → ServerResult ℕ
unfolding required_header
required_u64_header request name = do
  value ← required_header request name
  ok_or invalid_request (parse_unsigned u64_max value)

-- `a.abs_diff(b)`
unfoldable pub abs_diff : ℤ → ℤ → ℕ
abs_diff (pos a) (pos b) = (a - b) + (b - a)
abs_diff (pos a) (negsuc b) = a + suc b
abs_diff (negsuc a) (pos b) = suc a + b
abs_diff (negsuc a) (negsuc b) = (a - b) + (b - a)

module _ (c : AgentCrates) (peers_path : Text) (peers_file : JsonFile PeerStoreDocument)
    (now : ℤ) where
  unfoldable pub verify_peer_request : HttpRequest → ServerResult Text
  unfolding get abs_diff read_or_default trusted_peer
  verify_peer_request request = do
    device_id ← ok_or unauthorized (get (codes "x-syncer-device-id") request.headers)
    timestamp_text ← ok_or unauthorized (get (codes "x-syncer-timestamp") request.headers)
    timestamp ← ok_or unauthorized (parse_i64 timestamp_text)
    signature ← ok_or unauthorized (get (codes "x-syncer-signature") request.headers)
    guard (leb (abs_diff now timestamp) 300) unauthorized
    device_id ← ok_or unauthorized (c.parse_uuid device_id)
    peers ← map_err peer_store (read_or_default peers_path peers_file)
    peer ← ok_or unauthorized (trusted_peer device_id peers)
    verified ← map_err signing (
        verify_request_signature_with_body_hash_hex c signature request.method request.path
          (c.uuid_text device_id) timestamp request.body_sha256_hex peer.shared_secret_hex)
    ok peer.shared_secret_hex
