-- ===== src/Agent/PeerClient/Address.antt =====
-- crates/syncer-agent/src/peer_client.rs: the endpoint of a peer.
use syncer.Prelude.{
  ℕ, ◌≤◌, ◌<◌, ◌≡◌, refl, false, not, none, some, [], ◌∷◌, ◌++◌, Result, ok, ◌>>=◌, ◌>>◌, guard,
  ok_or, ◌==◌, nat_eq, length, All, codes, arith,
}
use syncer.Prelude.Decimal.{display, parse_unsigned}
use syncer.Prelude.Decimal.Laws.{IsDigit, display-IsDigit, parse_unsigned-display}
use syncer.Prelude.Strings.{strip_prefix, rsplit_once}
use syncer.Prelude.Texts.{Text}
use syncer.Agent.PeerClient.{PeerClientError, unsupported_endpoint}

pub record PeerAddress : Type 0 where
  pub host : Text
  pub port : ℕ

-- `PeerAddress::parse`
unfoldable pub parse_address : Text → Result PeerClientError PeerAddress
unfolding strip_prefix rsplit_once parse_unsigned
parse_address endpoint = do
  rest ← ok_or unsupported_endpoint (strip_prefix (codes "http://") endpoint)
  (host, port_text) ← ok_or unsupported_endpoint (rsplit_once b':' rest)
  port ← ok_or unsupported_endpoint (parse_unsigned 65535 port_text)
  guard (not (length host == 0)) unsupported_endpoint
  ok (record { host = host; port = port })

rsplit_once-none : (s : Text) → All IsDigit s → rsplit_once b':' s ≡ none
unfolding rsplit_once
rsplit_once-none [] all_digits = refl
rsplit_once-none (c ∷ s) (one, all_digits) = ground (arith, rsplit_once-none s all_digits)

rsplit_once-last :
    (host port : Text)
    → All IsDigit port
    → rsplit_once b':' (host ++ b':' ∷ port) ≡ some (host, port)
unfolding rsplit_once
rsplit_once-last [] port all_digits = rw (rsplit_once-none port all_digits) refl
rsplit_once-last (c ∷ host) port all_digits = rw (rsplit_once-last host port all_digits) refl

-- An endpoint that is written as a scheme, a host that is not empty and a 16-bit port is read back,
-- colons in the host included.
pub parse_address-display :
    (host : Text) (port : ℕ)
    → 0 < length host
    → port ≤ 65535
    → parse_address (codes "http://" ++ (host ++ b':' ∷ display port))
      ≡ ok (record { host = host; port = port })
unfolding parse_address strip_prefix
parse_address-display host port named fits =
    rw
      (
        rsplit_once-last host (display port) (display-IsDigit port),
        parse_unsigned-display 65535 port fits,
      )
      (let full : (length host == 0) ≡ false = ground arith in rw full refl)
