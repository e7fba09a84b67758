-- ===== src/Examples/Peers.antt =====
-- Witnesses for signatures, tickets, trusted peers and the folder document.
use syncer.Prelude.{
  ℕ, ◌+◌, ◌≤◌, ◌<◌, ◌≡◌, ◌⊎◌, ◌↔◌, refl, String, not, none, some, List, [], ◌∷◌, ◌++◌, Result, ok,
  err, ◌==◌, nat_eq, if◌then◌else◌, arith,
}
use syncer.Prelude.Words.{pos}
use syncer.Prelude.Texts.{codes}
use syncer.Prelude.Utf8.{bytes}
use syncer.Core.Error.{CoreError}
use syncer.Core.FolderStore
use syncer.Core.FolderStore.{FolderDocument, new_document}
use syncer.Core.FolderStore.Laws.{write-read}
use syncer.Core.JsonFile.{JsonDisk, absent, holds, succeeds}
use syncer.Core.Model.{bidirectional, native_path, default_retention}
use syncer.Agent.PeerClient.Address.{parse_address, parse_address-display}
use syncer.Prelude.Decimal.{display}
use syncer.Agent.PeerStore.{
  PairingTicketDocument, TrustedPeer, PeerStoreDocument, trusted_peer, create_ticket, validate,
  accept_ticket, peer_of_ticket, expired_ticket,
}
use syncer.Agent.PeerStore.Tickets.{validate-create_ticket}
use syncer.Agent.PeerStore.Trust.{HasDistinctDevices, trusted_peer-accept}
use syncer.Agent.Profile.{LocalDeviceProfile}
use syncer.Agent.RequestSigning.{
  canonical_payload_with_body_hash_hex, verify_request_signature_with_body_hash_hex,
  sign_request_with_body_hash_hex,
}
use syncer.Agent.RequestSigning.Laws.{
  Signed, IsSignable, canonical_payload-injective, verify-sign, verify_iff,
}
use syncer.Examples.{std_crates}
use syncer.Examples.Agent.{std_agent, std_agent-HexRoundTrips, std_agent-VerifiesByComparison}
use syncer.Examples.Transfers.{secret_text}

abbrev pub request_signed : Signed
request_signed = record {
  method = codes "GET";
  path = codes "/manifest";
  device_id = codes "phone";
  timestamp_unix = pos 1000;
  body_hash_hex = [];
}

request_signed-IsSignable : IsSignable request_signed
request_signed-IsSignable = record {
  method_line = ground arith;
  path_line = ground arith;
  device_line = ground arith;
  timestamp_range = omega arith;
}

canonical_payload-injective_example : request_signed ≡ request_signed
canonical_payload-injective_example =
    canonical_payload-injective request_signed request_signed request_signed-IsSignable
      request_signed-IsSignable refl

abbrev pub payload : List ℕ
payload = codes "GET\n/manifest\nphone\n1000\n"

verify-sign_example :
    verify_request_signature_with_body_hash_hex std_agent
      (secret_text ++ payload)
      (codes "GET")
      (codes "/manifest")
      (codes "phone")
      (pos 1000)
      []
      secret_text
    ≡ ok tt
unfolding sign_request_with_body_hash_hex canonical_payload_with_body_hash_hex bytes
    syncer.Prelude.Decimal.display_i64
verify-sign_example =
    verify-sign std_agent (codes "GET") (codes "/manifest") (codes "phone") (pos 1000) []
      secret_text std_agent-HexRoundTrips std_agent-VerifiesByComparison (secret_text ++ payload)
      refl

verify_iff_example :
    (verify_request_signature_with_body_hash_hex std_agent
        (codes "forged")
        (codes "GET")
        (codes "/manifest")
        (codes "phone")
        (pos 1000)
        []
        secret_text
      ≡ ok tt)
    ↔ ((secret : List ℕ) × (received : List ℕ) × (std_agent.hex_decode secret_text ≡ ok secret)
        × (std_agent.hex_decode (codes "forged") ≡ ok received)
        × (std_agent.hmac_sha256 secret (
              bytes (
                canonical_payload_with_body_hash_hex
                  (codes "GET")
                  (codes "/manifest")
                  (codes "phone")
                  (pos 1000)
                  []))
            ≡ some received))
verify_iff_example =
    verify_iff std_agent (codes "GET") (codes "/manifest") (codes "phone") (pos 1000) [] secret_text
      std_agent-VerifiesByComparison (codes "forged")

abbrev pub laptop_profile : LocalDeviceProfile
laptop_profile = record {
  device_id = 1;
  device_name = codes "laptop";
  created_at = 0;
  local_api_token_hex = [];
  identity_public_hex = [];
  identity_secret_hex = [];
}

validate-create_ticket_example :
    (ticket : PairingTicketDocument) × (create_ticket std_agent 1000 secret_text laptop_profile
        (codes "host:1")
        (pos 60)
      ≡ ok ticket)
    × (1030 < 1060
        → (validate std_agent 1030 ticket ≡ ok tt)
          × ((store : PeerStoreDocument)
              → (used : PeerStoreDocument) × (accept_ticket std_agent 1030 ticket store ≡ ok used)
                × (trusted_peer 1 used ≡ some (peer_of_ticket std_agent 1030 ticket))
                × (accept_ticket std_agent 1030 ticket used ≡ ok used)))
    × (1060 ≤ 1030
        → (validate std_agent 1030 ticket ≡ err expired_ticket)
          × ((store : PeerStoreDocument)
              → accept_ticket std_agent 1030 ticket store ≡ err expired_ticket))
validate-create_ticket_example =
    validate-create_ticket std_agent 1000 1030 59 secret_text laptop_profile (codes "host:1")
      std_agent-HexRoundTrips refl

abbrev pub phone_ticket : PairingTicketDocument
phone_ticket = record {
  schema_version = 1;
  device_id = 2;
  device_name = codes "phone";
  endpoint = codes "host:2";
  identity_public_hex = [];
  shared_secret_hex = secret_text;
  expires_at = 2000;
}

abbrev pub phone_peer : TrustedPeer
phone_peer = record {
  device_id = 2;
  device_name = codes "phone";
  endpoint = codes "host:2";
  identity_public_hex = [];
  shared_secret_hex = secret_text;
  trusted_at = 1000;
}

abbrev pub no_peers : PeerStoreDocument
no_peers = record { schema_version = 1; peers = [] }

abbrev pub one_peer : PeerStoreDocument
one_peer = record { schema_version = 1; peers = phone_peer ∷ [] }

trusted_peer-accept_example :
    (trusted_peer 2 one_peer ≡ some phone_peer)
    × (HasDistinctDevices [] → HasDistinctDevices (phone_peer ∷ []))
unfolding accept_ticket peer_of_ticket
trusted_peer-accept_example =
    trusted_peer-accept std_agent 1000 2 phone_ticket no_peers {store' = one_peer} refl

abbrev pub document : FolderDocument
document = record {
  schema_version = 1;
  folder = record {
    id = 7;
    display_name = "folder";
    root = native_path (codes "/f");
    mode = bidirectional;
    interval_seconds = 900;
    size_limit = record { max_bytes = 100; warning_threshold_percent = 80 };
    retention = default_retention;
    peers = [];
  };
}

abbrev empty_disk : JsonDisk FolderDocument
empty_disk = record { target = absent; temporary = absent }

abbrev pub folder_disk : JsonDisk FolderDocument
folder_disk = record { target = holds document; temporary = absent }

write-read_example :
    (((FolderStore.write std_crates (codes "/f") document succeeds empty_disk).1 ≡ ok tt)
      × (FolderStore.read std_crates
            (codes "/f")
            (FolderStore.write std_crates (codes "/f") document succeeds empty_disk).0
          ≡ ok document)
      × (document.schema_version ≡ 1))
    ⊎ ((e : CoreError) × ((FolderStore.write std_crates (codes "/f") document succeeds empty_disk).1
          ≡ err e)
        × ((FolderStore.write std_crates (codes "/f") document succeeds empty_disk).0.target
            ≡ empty_disk.target))
write-read_example = write-read std_crates (codes "/f") document succeeds empty_disk

parse_address-display_example :
    parse_address (codes "http://" ++ (codes "host" ++ b':' ∷ display 8080))
    ≡ ok (record { host = codes "host"; port = 8080 })
parse_address-display_example =
    parse_address-display (codes "host") 8080 (omega arith) (omega arith)
