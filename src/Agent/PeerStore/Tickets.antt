-- ===== src/Agent/PeerStore/Tickets.antt =====
-- The life of a pairing ticket of crates/syncer-agent/src/peer_store.rs.
use syncer.Prelude.{
  ℕ, suc, ◌≤◌, ◌<◌, ◌≡◌, refl, ap, ◌∙◌, some, List, [], ◌∷◌, ok, err, nat_eq, beq_refl, length,
  arith,
}
use syncer.Prelude.Words.{pos}
use syncer.Prelude.Texts.{Text}
use syncer.Agent.Crates.{AgentCrates, HexRoundTrips}
use syncer.Agent.Profile.{LocalDeviceProfile}
use syncer.Agent.PeerStore.{
  PairingTicketDocument, PeerStoreDocument, TrustedPeer, put_peer, trusted_peer, validate,
  create_ticket, accept_ticket, peer_of_ticket, expired_ticket,
}
use syncer.Agent.PeerStore.Trust.{find_peer-put}

put_peer-twice :
    (peer : TrustedPeer) (peers : List TrustedPeer)
    → put_peer peer (put_peer peer peers) ≡ put_peer peer peers
unfolding put_peer
put_peer-twice peer [] = ground arith
put_peer-twice peer (existing ∷ peers) = ground (arith, put_peer-twice peer peers)

module _ (c : AgentCrates) where
  IsValid-accept :
      (now : ℕ) (ticket : PairingTicketDocument) (store : PeerStoreDocument)
      → validate c now ticket ≡ ok tt
      → (used : PeerStoreDocument) × (accept_ticket c now ticket store ≡ ok used)
        × (trusted_peer ticket.device_id used ≡ some (peer_of_ticket c now ticket))
        × (accept_ticket c now ticket used ≡ ok used)
  unfolding accept_ticket trusted_peer peer_of_ticket
  IsValid-accept now ticket store valid =
      let peer = peer_of_ticket c now ticket in
      (
        record store { peers = put_peer peer store.peers },
        rw valid refl,
        find_peer-put ticket.device_id peer store.peers ∙ rw (beq_refl ticket.device_id) refl,
        rw valid
            (ap (λ peers. ok (record store { peers = peers })) (put_peer-twice peer store.peers)),
      )

  IsExpired-accept :
      (now : ℕ) (ticket : PairingTicketDocument) (store : PeerStoreDocument)
      → validate c now ticket ≡ err expired_ticket
      → accept_ticket c now ticket store ≡ err expired_ticket
  unfolding accept_ticket
  IsExpired-accept now ticket store expired = rw expired refl

  abbrev created : ℕ → ℕ → List ℕ → LocalDeviceProfile → Text → PairingTicketDocument
  created now seconds random profile endpoint = record {
    schema_version = 1;
    device_id = profile.device_id;
    device_name = profile.device_name;
    endpoint = endpoint;
    identity_public_hex = profile.identity_public_hex;
    shared_secret_hex = c.hex_encode random;
    expires_at = c.add_seconds now (suc seconds);
  }

  -- A ticket is created for every positive time to live, where the random secret has 32 bytes. At each
  -- moment before it expires it is valid and each store accepts it, with its device as a peer, also one
  -- that has accepted it before: a use does not end it. From its expiry on it is refused as expired.
  pub validate-create_ticket :
      (now later seconds : ℕ) (random : List ℕ) (profile : LocalDeviceProfile) (endpoint : Text)
      → HexRoundTrips c
      → length random ≡ 32
      → (ticket : PairingTicketDocument) × (create_ticket c now random profile endpoint
            (pos (suc seconds))
          ≡ ok ticket)
        × (later < c.add_seconds now (suc seconds)
            → (validate c later ticket ≡ ok tt)
              × ((store : PeerStoreDocument)
                  → (used : PeerStoreDocument) × (accept_ticket c later ticket store ≡ ok used)
                    × (trusted_peer profile.device_id used ≡ some (peer_of_ticket c later ticket))
                    × (accept_ticket c later ticket used ≡ ok used)))
        × (c.add_seconds now (suc seconds) ≤ later
            → (validate c later ticket ≡ err expired_ticket)
              × ((store : PeerStoreDocument)
                  → accept_ticket c later ticket store ≡ err expired_ticket))
  unfolding create_ticket validate
  validate-create_ticket now later seconds random profile endpoint hexes size =
      let ticket = created now seconds random profile endpoint in
      (
        ticket,
        refl,
        λ early.
            let valid : validate c later ticket ≡ ok tt = ground (arith, hexes random) in
            (valid, λ store. IsValid-accept later ticket store valid),
        λ late.
            let expired : validate c later ticket ≡ err expired_ticket = ground arith in
            (expired, λ store. IsExpired-accept later ticket store expired),
      )
