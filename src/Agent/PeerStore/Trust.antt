-- ===== src/Agent/PeerStore/Trust.antt =====
-- Which peers crates/syncer-agent/src/peer_store.rs trusts after a ticket.
use syncer.Prelude.{
  ℕ, beq→eq, sym, ap, ◌≡◌, ◌≢◌, refl, ◌∙◌, Bool-cases, inl, inr, some, List, [], ◌∷◌, ok, >>=-eq-ok,
  ◌==◌, nat_eq, if◌then◌else◌, All, arith,
}
use mathlib.Core.Path.{subst}
use syncer.Agent.Crates.{AgentCrates}
use syncer.Agent.PeerStore.{
  PairingTicketDocument, PeerStoreDocument, TrustedPeer, validate, accept_ticket, peer_of_ticket,
  put_peer, find_peer, trusted_peer,
}

pub find_peer-put :
    (id : ℕ) (peer : TrustedPeer) (peers : List TrustedPeer)
    → find_peer id (put_peer peer peers)
      ≡ (if peer.device_id == id then some peer else find_peer id peers)
unfolding find_peer put_peer
find_peer-put id peer [] = refl
find_peer-put id peer (existing ∷ peers) = ground (arith, find_peer-put id peer peers)

abbrev pub HasDistinctDevices : List TrustedPeer → Type 0
HasDistinctDevices [] = Unit
HasDistinctDevices (peer ∷ peers) =
    All (λ other. other.device_id ≢ peer.device_id) peers × HasDistinctDevices peers

All-put :
    (id : ℕ) (peer : TrustedPeer) (peers : List TrustedPeer)
    → peer.device_id ≢ id
    → All (λ other. other.device_id ≢ id) peers
    → All (λ other. other.device_id ≢ id) (put_peer peer peers)
unfolding put_peer
All-put id peer [] new others = (new, tt)
All-put id peer (existing ∷ peers) new others =
    ground (arith, All-put id peer peers new others.1, others.0)

put_peer-HasDistinctDevices :
    (peer : TrustedPeer) (peers : List TrustedPeer)
    → HasDistinctDevices peers
    → HasDistinctDevices (put_peer peer peers)
unfolding put_peer
put_peer-HasDistinctDevices peer [] distinct = (tt, tt)
put_peer-HasDistinctDevices peer (existing ∷ peers) distinct =
    elim (Bool-cases (existing.device_id == peer.device_id)) [
      | inl same ↦ rw same (
        subst (λ (id : ℕ). All (λ other. other.device_id ≢ id) peers)
            (beq→eq existing.device_id peer.device_id same) distinct.0,
        distinct.1,
      )
      | inr other ↦ rw other (
        All-put existing.device_id peer peers (ground arith) distinct.0,
        put_peer-HasDistinctDevices peer peers distinct.1,
      )
    ]

module _ (c : AgentCrates) where
  -- After a ticket has been accepted, its device is trusted with the secret of the ticket and every
  -- other device is trusted as before, and the devices are still distinct if they were.
  pub trusted_peer-accept :
      (now id : ℕ) (ticket : PairingTicketDocument) (store : PeerStoreDocument)
      {store' : PeerStoreDocument}
      → accept_ticket c now ticket store ≡ ok store'
      → (trusted_peer id store' ≡ (
          if ticket.device_id == id
          then some (peer_of_ticket c now ticket)
          else trusted_peer id store))
        × (HasDistinctDevices store.peers → HasDistinctDevices store'.peers)
  unfolding accept_ticket trusted_peer peer_of_ticket
  trusted_peer-accept now id ticket store {store'} accepted =
      let (checked, valid, stored) = >>=-eq-ok (validate c now ticket) _ accepted in
      let peers : store'.peers ≡ put_peer (peer_of_ticket c now ticket) store.peers = cc stored in
      (
        ap (find_peer id) peers ∙ find_peer-put id (peer_of_ticket c now ticket) store.peers,
        λ distinct.
            subst HasDistinctDevices (sym peers)
              (put_peer-HasDistinctDevices (peer_of_ticket c now ticket) store.peers distinct),
      )
