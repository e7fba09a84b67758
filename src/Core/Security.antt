-- ===== src/Core/Security.antt =====
-- crates/syncer-core/src/security.rs: public keys and pairing tickets.
use syncer.Prelude.{ℕ, String, Bool, List, ok, err, leb, ◌==◌, nat_eq, if◌then◌else◌, length}
use syncer.Prelude.Texts.{Text}
use syncer.Core.Error.{CoreResult, invalid_public_key_length, expired_pairing_ticket}

pub record PublicKeyBytes : Type 0 where
  pub bytes : List ℕ

unfoldable pub from_slice : List ℕ → CoreResult PublicKeyBytes
from_slice bytes =
    if length bytes == 32 then ok (record { bytes = bytes }) else err invalid_public_key_length

pub record PairingTicket : Type 0 where
  pub device_id : ℕ
  pub device_name : Text
  pub temporary_public_key : PublicKeyBytes
  pub endpoint : Text
  pub expires_at : ℕ

unfoldable pub new_ticket : ℕ → Text → PublicKeyBytes → Text → ℕ → ℕ → CoreResult PairingTicket
new_ticket device_id device_name temporary_public_key endpoint expires_at now =
    if leb expires_at now
    then err expired_pairing_ticket
    else ok (record {
      device_id = device_id;
      device_name = device_name;
      temporary_public_key = temporary_public_key;
      endpoint = endpoint;
      expires_at = expires_at;
    })

unfoldable pub is_expired : PairingTicket → ℕ → Bool
is_expired ticket now = leb ticket.expires_at now

pub record PeerPresence : Type 0 where
  pub device_id : ℕ
  pub sent_at : ℕ
  pub agent_version : String
