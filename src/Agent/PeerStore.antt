-- ===== src/Agent/PeerStore.antt =====
-- crates/syncer-agent/src/peer_store.rs: pairing tickets and the list of trusted peers.
pub mod Tickets
pub mod Trust
use syncer.Prelude.{
  ℕ, zero, suc, String, Bool, true, false, not, Option, none, some, List, [], ◌∷◌, ◌++◌, Result, ok,
  err, ◌>>=◌, ◌>>◌, guard, map_err, leb, ◌==◌, nat_eq, if◌then◌else◌, length,
}
use syncer.Prelude.Words.{ℤ, pos, negsuc}
use syncer.Prelude.Texts.{Text}
use syncer.Core.JsonFile.{
  JsonFile, absent, unreadable, malformed, holds, not_found, JsonDisk, Writing, succeeds,
  no_directory, not_serialized, not_written, not_renamed,
}
use syncer.Agent.Crates.{AgentCrates}
use syncer.Agent.Profile.{LocalDeviceProfile}

pub record PairingTicketDocument : Type 0 where
  pub schema_version : ℕ
  pub device_id : ℕ
  pub device_name : Text
  pub endpoint : Text
  pub identity_public_hex : Text
  pub shared_secret_hex : Text
  pub expires_at : ℕ

pub record TrustedPeer : Type 0 where
  pub device_id : ℕ
  pub device_name : Text
  pub endpoint : Text
  pub identity_public_hex : Text
  pub shared_secret_hex : Text
  pub trusted_at : ℕ

pub record PeerStoreDocument : Type 0 where
  pub schema_version : ℕ
  pub peers : List TrustedPeer

pub data PeerStoreError : Type 0 where
  invalid_ttl : PeerStoreError
  expired_ticket : PeerStoreError
  unsupported_schema : ℕ → PeerStoreError
  invalid_shared_secret : PeerStoreError
  read_error : Text → String → PeerStoreError
  create_directory : Text → String → PeerStoreError
  write_error : Text → String → PeerStoreError
  json : String → PeerStoreError
  hex : String → PeerStoreError

abbrev pub StoreResult : Type 0 → Type 0
StoreResult A = Result PeerStoreError A

-- `find` by the device.
unfoldable pub find_peer : ℕ → List TrustedPeer → Option TrustedPeer
find_peer device_id [] = none
find_peer device_id (peer ∷ peers) =
    let rest = find_peer device_id peers in if peer.device_id == device_id then some peer else rest

unfoldable pub trusted_peer : ℕ → PeerStoreDocument → Option TrustedPeer
unfolding find_peer
trusted_peer device_id store = find_peer device_id store.peers

-- The first peer with the device is replaced, or the peer is pushed behind the others.
unfoldable pub put_peer : TrustedPeer → List TrustedPeer → List TrustedPeer
put_peer peer [] = peer ∷ []
put_peer peer (existing ∷ peers) =
    let rest = put_peer peer peers in
    if existing.device_id == peer.device_id then peer ∷ peers else existing ∷ rest

unfoldable pub read_or_default : Text → JsonFile PeerStoreDocument → StoreResult PeerStoreDocument
read_or_default path absent = ok (record { schema_version = 1; peers = [] })
read_or_default path (unreadable message) = err (read_error path message)
read_or_default path (malformed message) = err (json message)
read_or_default path (holds document) =
    if not (document.schema_version == 1)
    then err (unsupported_schema document.schema_version)
    else ok document

-- `parent` and `temporary` are `path.parent()`, which is there if it has to be created, and
-- `path.with_extension("json.tmp")`.
unfoldable pub write :
    Text
    → Text
    → Text
    → PeerStoreDocument
    → Writing PeerStoreDocument
    → JsonDisk PeerStoreDocument
    → JsonDisk PeerStoreDocument × StoreResult (Unit {0})
write parent temporary path store (no_directory message) disk =
    (disk, err (create_directory parent message))
write parent temporary path store (not_serialized message) disk = (disk, err (json message))
write parent temporary path store (not_written message left) disk =
    (record disk { temporary = left }, err (write_error temporary message))
write parent temporary path store (not_renamed message) disk =
    (record disk { temporary = holds store }, err (write_error path message))
write parent temporary path store succeeds disk =
    (record { target = holds store; temporary = absent }, ok tt)

module _ (c : AgentCrates) where
  unfoldable pub validate : ℕ → PairingTicketDocument → StoreResult (Unit {0})
  validate now ticket = do
    guard (ticket.schema_version == 1) (unsupported_schema ticket.schema_version)
    guard (not (leb ticket.expires_at now)) expired_ticket
    secret ← map_err hex (c.hex_decode ticket.shared_secret_hex)
    guard (length secret == 32) invalid_shared_secret

  -- `random` is the secret that the random generator gives.
  unfoldable pub create_ticket :
      ℕ → List ℕ → LocalDeviceProfile → Text → ℤ → StoreResult PairingTicketDocument
  create_ticket now random profile endpoint (negsuc n) = err invalid_ttl
  create_ticket now random profile endpoint (pos zero) = err invalid_ttl
  create_ticket now random profile endpoint (pos (suc n)) = ok (record {
    schema_version = 1;
    device_id = profile.device_id;
    device_name = profile.device_name;
    endpoint = endpoint;
    identity_public_hex = profile.identity_public_hex;
    shared_secret_hex = c.hex_encode random;
    expires_at = c.add_seconds now (suc n);
  })

  unfoldable pub read_ticket :
      ℕ → Text → JsonFile PairingTicketDocument → StoreResult PairingTicketDocument
  unfolding validate
  read_ticket now path absent = err (read_error path not_found)
  read_ticket now path (unreadable message) = err (read_error path message)
  read_ticket now path (malformed message) = err (json message)
  read_ticket now path (holds ticket) = do validate now ticket; ok ticket

  unfoldable pub peer_of_ticket : ℕ → PairingTicketDocument → TrustedPeer
  peer_of_ticket now ticket = record {
    device_id = ticket.device_id;
    device_name = ticket.device_name;
    endpoint = ticket.endpoint;
    identity_public_hex = ticket.identity_public_hex;
    shared_secret_hex = ticket.shared_secret_hex;
    trusted_at = now;
  }

  unfoldable pub accept_ticket :
      ℕ → PairingTicketDocument → PeerStoreDocument → StoreResult PeerStoreDocument
  unfolding validate put_peer peer_of_ticket
  accept_ticket now ticket store = do
    validate now ticket
    ok (record store { peers = put_peer (peer_of_ticket now ticket) store.peers })
