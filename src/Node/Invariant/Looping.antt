-- ===== src/Node/Invariant/Looping.antt =====
-- Commands.go, `autoPingAll`: what holds of a node in the middle of a loop over a peer's
-- connections.
use peernet_core.Prelude.{
  List, ℕ, ◌<◌, ◌≡◌, refl, sym, ap, ◌∙◌, subst, Bool, true, false, some, inl, inr, arith, get_elem?,
  Bool-cases,
}
use peernet_core.Slice.{items}
use peernet_core.Slice.Pointers.{has, has-append}
use peernet_core.Slice.Stale.{ComesFrom, has-index}
use peernet_core.Connection.{
  Store, PeerInfo, get_connections, invalidate_active_connection, remove_inactive_connection,
}
use peernet_core.Connection.Moves.{invalidate-Invalidated, update-ne}
use peernet_core.Connection.Stale.{
  inactive-apart, invalidate-ComesFrom, invalidate-shrinks, remove-ComesFrom, active-remove,
  store-remove, remove-IsConsistent,
}
use peernet_core.Node.{Node, local_ip, update_peer, update_peer_self}
use peernet_core.Node.Invariant.{IsSound, peer-IsSound}
use peernet_core.Node.Invariant.Sending.{invalidated-IsSound, sent-IsSound}
use peernet_core.Node.Sending.{add_uint64}

module _ {K : Type 0} (owner : ℕ → ℕ) (q : ℕ) (active? : Bool) where
  -- A connection that the loop over a list of peer q may meet: it is the peer's own, and is
  -- active only if the list is the active one.
  abbrev pub Belongs : PeerInfo K → ℕ → Type 0
  Belongs p k = (owner k ≡ q) × (has k (items p.connection_active) ≡ true → active? ≡ true)

  -- The node is sound, what is at the next `count` places of the list's array belongs there, and the
  -- active connections are among those in `bound`.
  pub record Looping (bound : List ℕ) (count : ℕ) (n : Node K) : Type 0 where
    pub sound : IsSound owner n
    pub inside : q < n.next_peer
    pub fine :
        (i k : ℕ)
        → i < count
        → get_elem? (get_connections (n.peers q) active?).array i ≡ some k
        → Belongs (n.peers q) k
    pub fewer : (k : ℕ) → has k (items (n.peers q).connection_active) ≡ true → has k bound ≡ true

module _ {K : Type 0} (owner : ℕ → ℕ) (q : ℕ) where
  -- What a list of the peer shows belongs to it.
  pub listed-Belongs :
      (active? : Bool) (n : Node K) (k : ℕ)
      → IsSound owner n
      → q < n.next_peer
      → has k (items (get_connections (n.peers q) active?)) ≡ true
      → Belongs owner q active? (n.peers q) k
  unfolding get_connections
  listed-Belongs true n k sound inside m = (
    (sound.owned q k inside (
        ground (
          arith,
          m,
          has-append k (items (n.peers q).connection_active)
              (items (n.peers q).connection_inactive),
        ))).0,
    λ h. refl,
  )
  listed-Belongs false n k sound inside m = (
    (sound.owned q k inside (
        ground (
          arith,
          m,
          has-append k (items (n.peers q).connection_active)
              (items (n.peers q).connection_inactive),
        ))).0,
    λ h. absurd (
        cc (inactive-apart (local_ip n) n.connections (n.peers q) (sound.consistent q inside) k m)),
  )

  -- The loop starts.
  pub start-Looping :
      (active? : Bool) (bound : List ℕ) (n : Node K)
      → IsSound owner n
      → q < n.next_peer
      → ((k : ℕ) → has k (items (n.peers q).connection_active) ≡ true → has k bound ≡ true)
      → Looping owner q active? bound (get_connections (n.peers q) active?).len n
  start-Looping active? bound n sound inside fewer = record {
    sound = sound;
    inside = inside;
    fine = λ i k lt e.
        listed-Belongs active? n k sound inside
          (has-index (get_connections (n.peers q) active?) i k lt e);
    fewer = fewer;
  }

  -- A change of the peer that leaves in the list's array what was there, what the list showed, or
  -- a connection that belongs there, and that adds no active connection.
  module _ (active? : Bool) (bound : List ℕ) (count : ℕ) (n : Node K)
      (loop : Looping owner q active? bound count n) (h : Store) (p : PeerInfo K) (k : ℕ) where
    changed-Belongs :
        Belongs owner q active? p k
        → ComesFrom k (get_connections (n.peers q) active?) (get_connections p active?)
        → ((d : ℕ)
            → has d (items p.connection_active) ≡ true
            → has d (items (n.peers q).connection_active) ≡ true)
        → (i d : ℕ) → i < count
        → get_elem? (get_connections p active?).array i ≡ some d
        → Belongs owner q active? p d
    changed-Belongs mine comes shrinks i d lt e = elim (comes i d e) [
      | inl old ↦ let (o, f) = loop.fine i d lt old in (o, λ m. f (shrinks d m))
      | inr (inl m) ↦
          let (o, f) = listed-Belongs active? n d loop.sound loop.inside m in
          (o, λ m'. f (shrinks d m'))
      | inr (inr same) ↦ subst (Belongs owner q active? p) (sym same) mine
    ]

    pub changed-Looping :
        Belongs owner q active? p k
        → ComesFrom k (get_connections (n.peers q) active?) (get_connections p active?)
        → ((d : ℕ)
            → has d (items p.connection_active) ≡ true
            → has d (items (n.peers q).connection_active) ≡ true)
        → IsSound owner (record n { connections = h; peers = update_peer n.peers q p })
        → Looping owner q active? bound count
            (record n { connections = h; peers = update_peer n.peers q p })
    changed-Looping mine comes shrinks sound = record {
      sound = sound;
      inside = loop.inside;
      fine = rw (update_peer_self n.peers q p) (changed-Belongs mine comes shrinks);
      fewer = rw (update_peer_self n.peers q p) (λ d m. loop.fewer d (shrinks d m));
    }

module _ {K : Type 0} (owner : ℕ → ℕ) (q : ℕ) (active? : Bool) (bound : List ℕ) (count : ℕ)
    (n : Node K) (loop : Looping owner q active? bound count n) where
  pub invalidated-Looping :
      (k now : ℕ)
      → owner k ≡ q
      → let (h, p) = invalidate_active_connection n.connections (n.peers q) k now in
        Looping owner q active? bound count
          (record n { connections = h; peers = update_peer n.peers q p })
  invalidated-Looping k now mine =
      let inv = loop.sound.consistent q loop.inside in
      let (_, _, gone, _, _) =
        invalidate-Invalidated (local_ip n) n.connections (n.peers q) inv k now in
      changed-Looping owner q active? bound count n loop _ _ k (mine, λ m. absurd (cc gone))
        (invalidate-ComesFrom (local_ip n) n.connections (n.peers q) inv k now active?)
        (invalidate-shrinks (local_ip n) n.connections (n.peers q) inv k now)
        (invalidated-IsSound owner q k now n mine loop.sound loop.inside)

  sent-fine :
      (b : Bool) (stats : ℕ)
      → ((i k : ℕ)
          → i < count
          → get_elem? (get_connections (n.peers q) b).array i ≡ some k
          → Belongs owner q active? (n.peers q) k)
      → (i k : ℕ) → i < count
      → get_elem? (get_connections (record (n.peers q) { stats_packet_sent = stats }) b).array i
        ≡ some k
      → Belongs owner q active? (n.peers q) k
  unfolding get_connections
  sent-fine true stats fine = fine
  sent-fine false stats fine = fine

  pub sent-Looping : Looping owner q active? bound count (record n {
    peers =
        update_peer n.peers q
          (record (n.peers q) { stats_packet_sent = add_uint64 (n.peers q).stats_packet_sent });
  })
  sent-Looping = record {
    sound = sent-IsSound owner q n loop.sound loop.inside;
    inside = loop.inside;
    fine = rw (update_peer_self n.peers q _) (sent-fine active? _ loop.fine);
    fewer = rw (update_peer_self n.peers q _) loop.fewer;
  }

module _ {K : Type 0} (owner : ℕ → ℕ) (q : ℕ) (n : Node K) (sound : IsSound owner n)
    (inside : q < n.next_peer) (k : ℕ) (mine : owner k ≡ q) where
  removed-IsSound :
      has k (items (n.peers q).connection_active) ≡ false
      → let (h, p) = remove_inactive_connection n.connections (n.peers q) k in
        IsSound owner (record n { connections = h; peers = update_peer n.peers q p })
  removed-IsSound idle =
      let (good, kept) =
        remove-IsConsistent (local_ip n) n.connections (n.peers q) (sound.consistent q inside) k
          idle in
      peer-IsSound owner n sound q _ _ n.next_connection owner inside good (omega arith)
        (λ d m. sound.owned q d inside (kept d m))
        (λ d ne lt. (
          ap (λ (h : Store). h d) (store-remove n.connections (n.peers q) k)
              ∙ update-ne n.connections k d _ (λ e. ne (ap owner e ∙ mine)),
          refl,
        ))

module _ {K : Type 0} (owner : ℕ → ℕ) (q : ℕ) (bound : List ℕ) (count : ℕ) (n : Node K)
    (loop : Looping owner q false bound count n) where
  pub removed-Looping :
      (k : ℕ)
      → Belongs owner q false (n.peers q) k
      → let (h, p) = remove_inactive_connection n.connections (n.peers q) k in
        Looping owner q false bound count
          (record n { connections = h; peers = update_peer n.peers q p })
  removed-Looping k (mine, idle) =
      let same = active-remove n.connections (n.peers q) k in
      changed-Looping owner q false bound count n loop _ _ k (mine, rw same idle)
        (remove-ComesFrom (local_ip n) n.connections (n.peers q)
          (loop.sound.consistent q loop.inside) k false)
        (λ d. rw same (λ m. m))
        (removed-IsSound owner q n loop.sound loop.inside k mine
          (elim (Bool-cases (has k (items (n.peers q).connection_active))) [
            | inl there ↦ absurd (cc (idle there))
            | inr gone ↦ gone
          ]))
