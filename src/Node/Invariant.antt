-- ===== src/Node/Invariant.antt =====
-- What holds of a whole node between two steps.
pub mod Sending
pub mod Arrival
pub mod Worker
pub mod Looping
pub mod Ping
pub mod Retire
pub mod Rounds
pub mod Announcing
use peernet_core.Prelude.{
  ℕ, suc, ◌+◌, ◌≤◌, ◌<◌, ◌≡◌, ◌≢◌, refl, sym, ap, ◌∙◌, subst, Bool, true, false, Option, some, List,
  [], ◌∷◌, map, ◌⊎◌, arith, if◌then◌else◌, ◌==◌, ==_iff, Bool-cases, inl, inr,
}
use peernet_core.Ip.{Bytes}
use peernet_core.Slice.Pointers.{has}
use peernet_core.Connection.{Store, Connection, PeerInfo, update}
use peernet_core.Connection.Lists.{endpoint}
use peernet_core.Connection.Invariant.{connections, IsConsistent}
use peernet_core.Connection.Frame.{IsConsistent-agree}
use peernet_core.Connection.Moves.{update-ne}
use peernet_core.Node.{Node, local_ip, update_peer, update_peer_self}
use peernet_core.Node.Peerlist.{map_get, map_set}

-- The connections of every peer are consistent and in use, and no connection is in two peers:
-- `owner` says whose it is. The peer list has peers in use.
pub record IsSound {K : Type 0} (owner : ℕ → ℕ) (n : Node K) : Type 0 where
  pub consistent : (q : ℕ) → q < n.next_peer → IsConsistent (local_ip n) n.connections (n.peers q)
  pub owned :
      (q d : ℕ)
      → q < n.next_peer
      → has d (connections (n.peers q)) ≡ true
      → (owner d ≡ q) × (d < n.next_connection)
  pub known : (q : ℕ) → has q (map (λ e. e.1) n.peer_list) ≡ true → q < n.next_peer

-- What a lookup finds is in the map, and so is what was put there.
pub has-map_get :
    (k : Bytes) (q : ℕ) (m : List (Bytes × ℕ))
    → map_get k m ≡ some q
    → has q (map (λ e. e.1) m) ≡ true
unfolding map_get
has-map_get k q [] e = absurd (cc)
has-map_get k q ((j, r) ∷ m) e = ground (arith, has-map_get k q m)

pub has-map_set :
    (k : Bytes) (new q : ℕ) (m : List (Bytes × ℕ))
    → has q (map (λ e. e.1) (map_set k new m)) ≡ true
    → (q ≡ new) ⊎ (has q (map (λ e. e.1) m) ≡ true)
unfolding map_set
has-map_set k new q [] h = ground arith
has-map_set k new q ((j, r) ∷ m) h = ground (arith, has-map_set k new q m)

module _ {K : Type 0} (owner : ℕ → ℕ) (n : Node K) (sound : IsSound owner n) where
  -- A step that changes one peer, and the store only at connections that are this peer's, before
  -- or after.
  pub peer-IsSound :
      (q : ℕ) (h : Store) (p : PeerInfo K) (next : ℕ) (owner' : ℕ → ℕ)
      → q < n.next_peer
      → IsConsistent (local_ip n) h p
      → n.next_connection ≤ next
      → ((d : ℕ) → has d (connections p) ≡ true → (owner' d ≡ q) × (d < next))
      → ((d : ℕ)
          → owner d ≢ q
          → d < n.next_connection
          → (h d ≡ n.connections d) × (owner' d ≡ owner d))
      → IsSound owner'
          (record n { connections = h; next_connection = next; peers = update_peer n.peers q p })
  peer-IsSound q h p next owner' inside good more own rest = record {
    consistent = λ r lt. elim (Bool-cases (r == q)) [
      | inl hit ↦ rw hit good
      | inr miss ↦ rw miss (
          IsConsistent-agree (local_ip n) n.connections h (n.peers r)
            (λ d m.
              let (o, l) = sound.owned r d lt m in
              let same = (rest d (λ e. ground (arith, miss, sym o ∙ e)) l).0 in
              (ap (endpoint (local_ip n)) same, ap (λ (z : Connection). z.status) same))
            (sound.consistent r lt))
    ];
    owned = λ r d lt. elim (Bool-cases (r == q)) [
      | inl hit ↦ rw (hit, (==_iff r q).0 hit) (own d)
      | inr miss ↦ rw miss (λ m.
          let (o, l) = sound.owned r d lt m in
          ((rest d (λ e. ground (arith, miss, sym o ∙ e)) l).1 ∙ o, omega (arith, l, more)))
    ];
    known = sound.known;
  }

  -- A step that changes no peer, and of the connections neither endpoints nor status.
  pub store-IsSound :
      (h : Store)
      → ((d : ℕ)
          → (endpoint (local_ip n) (h d) ≡ endpoint (local_ip n) (n.connections d))
            × ((h d).status ≡ (n.connections d).status))
      → IsSound owner (record n { connections = h })
  store-IsSound h same = record {
    consistent = λ q lt.
        IsConsistent-agree (local_ip n) n.connections h (n.peers q) (λ d m. same d)
          (sound.consistent q lt);
    owned = sound.owned;
    known = sound.known;
  }
