-- ===== src/Connection/Stale.antt =====
-- Connection.go: the arrays of a peer's lists, over which a loop may still go, and what the calls
-- leave in them.
use peernet_core.Prelude.{
  ℕ, ◌≡◌, refl, ap, true, false, Bool, Option-cases, Bool-cases, inl, inr, arith, some, ◌<◌,
  length-take,
}
use peernet_core.Ip.{Bytes}
use peernet_core.Slice.{Slice, items}
use peernet_core.Slice.Pointers.{
  has, find_pointer, find_pointer-found, has-find_pointer-none, has-perm, has-append, has-erase_of,
}
use peernet_core.Slice.Stale.{ComesFrom, append-ComesFrom, remove_at-ComesFrom}
use peernet_core.Connection.{
  Connection, Store, PeerInfo, removed, update, get_connections, invalidate_active_connection,
  remove_inactive_connection,
}
use peernet_core.Connection.Lists.{endpoint}
use peernet_core.Connection.Invariant.{connections, IsConsistent}
use peernet_core.Connection.Frame.{IsConsistent-agree}
use peernet_core.Connection.Removal.{remove-Removed}
use peernet_core.Connection.Moves.{update-ne, ne_of_has, has-erase, items-invalidate}

found_inside : (s : Slice) (k n : ℕ) → find_pointer k (items s) ≡ some n → n < s.len
found_inside s k n e =
    omega (arith, (find_pointer-found k n (items s) e).0, length-take s.len s.array)

module _ (local_ip : ℕ → Bytes) (h : Store) {K : Type 0} (p : PeerInfo K)
    (inv : IsConsistent local_ip h p) where
  -- A connection of the inactive list is not active.
  pub inactive-apart :
      (d : ℕ)
      → has d (items p.connection_inactive) ≡ true
      → has d (items p.connection_active) ≡ false
  inactive-apart d there = elim (Bool-cases (has d (items p.connection_active))) [
    | inl both ↦ absurd (
        cc
          (has-erase (λ e. endpoint local_ip (h e)) d (items p.connection_active)
            (items p.connection_inactive) both inv.distinct).1)
    | inr gone ↦ gone
  ]

  module _ (k now : ℕ) where
    pub invalidate-ComesFrom :
        (active? : Bool)
        → ComesFrom k
            (get_connections p active?)
            (get_connections (invalidate_active_connection h p k now).1 active?)
    unfolding get_connections invalidate_active_connection
    invalidate-ComesFrom true = elim (Option-cases (find_pointer k (items p.connection_active))) [
      | inl e ↦ rw (e, invalidate_active_connection) (λ i x old. inl old)
      | inr (n, e) ↦
          rw (e, invalidate_active_connection)
            (remove_at-ComesFrom p.connection_active n k inv.active_slice
              (found_inside p.connection_active k n e))
    ]
    invalidate-ComesFrom false = elim (Option-cases (find_pointer k (items p.connection_active))) [
      | inl e ↦ rw (e, invalidate_active_connection) (λ i x old. inl old)
      | inr (n, e) ↦ rw (e, invalidate_active_connection) (append-ComesFrom p.connection_inactive k)
    ]

    pub invalidate-shrinks :
        (d : ℕ)
        → has d (items (invalidate_active_connection h p k now).1.connection_active) ≡ true
        → has d (items p.connection_active) ≡ true
    invalidate-shrinks d =
        rw (items-invalidate h p k now inv.active_slice)
          (has-erase_of k d (items p.connection_active))

  pub remove-ComesFrom :
      (k : ℕ) (active? : Bool)
      → ComesFrom k
          (get_connections p active?)
          (get_connections (remove_inactive_connection h p k).1 active?)
  unfolding get_connections remove_inactive_connection
  remove-ComesFrom k true = elim (Option-cases (find_pointer k (items p.connection_inactive))) [
    | inl e ↦ rw (e, remove_inactive_connection) (λ i x old. inl old)
    | inr (n, e) ↦ rw (e, remove_inactive_connection) (λ i x old. inl old)
  ]
  remove-ComesFrom k false = elim (Option-cases (find_pointer k (items p.connection_inactive))) [
    | inl e ↦ rw (e, remove_inactive_connection) (λ i x old. inl old)
    | inr (n, e) ↦
        rw (e, remove_inactive_connection)
          (remove_at-ComesFrom p.connection_inactive n k inv.inactive_slice
            (found_inside p.connection_inactive k n e))
  ]

module _ (h : Store) {K : Type 0} (p : PeerInfo K) (k : ℕ) where
  pub active-remove : (remove_inactive_connection h p k).1.connection_active ≡ p.connection_active
  unfolding remove_inactive_connection
  active-remove = elim (Option-cases (find_pointer k (items p.connection_inactive))) [
    | inl e ↦ rw (e, remove_inactive_connection) refl
    | inr (n, e) ↦ rw (e, remove_inactive_connection) refl
  ]

  pub store-remove :
      (remove_inactive_connection h p k).0 ≡ update h k (record (h k) { status = removed })
  unfolding remove_inactive_connection
  store-remove = elim (Option-cases (find_pointer k (items p.connection_inactive))) [
    | inl e ↦ rw (e, remove_inactive_connection) refl
    | inr (n, e) ↦ rw (e, remove_inactive_connection) refl
  ]

module _ (local_ip : ℕ → Bytes) (h : Store) {K : Type 0} (p : PeerInfo K)
    (inv : IsConsistent local_ip h p) (k : ℕ) where
  unlisted-IsConsistent :
      has k (items p.connection_active) ≡ false
      → has k (items p.connection_inactive) ≡ false
      → IsConsistent local_ip (update h k (record (h k) { status = removed })) p
  unlisted-IsConsistent idle out =
      let gone : has k (connections p) ≡ false = ground (
        arith,
        idle,
        out,
        has-append k (items p.connection_active) (items p.connection_inactive),
      ) in
      IsConsistent-agree local_ip h _ p
        (λ d m.
          let same = update-ne h k d _ (ne_of_has k d (connections p) gone m) in
          (ap (endpoint local_ip) same, ap (λ (z : Connection). z.status) same))
        inv

  -- `removeInactiveConnection` on a connection that is not active, and that may have been removed
  -- before.
  pub remove-IsConsistent :
      has k (items p.connection_active) ≡ false
      → let (h', p') = remove_inactive_connection h p k in
        IsConsistent local_ip h' p'
        × ((d : ℕ) → has d (connections p') ≡ true → has d (connections p) ≡ true)
  unfolding remove_inactive_connection
  remove-IsConsistent idle = elim (Option-cases (find_pointer k (items p.connection_inactive))) [
    | inl e ↦
        rw (e, remove_inactive_connection)
          (unlisted-IsConsistent idle (has-find_pointer-none k _ e), λ d m. m)
    | inr (n, e) ↦
        let (good, moved, _, _, _, _) =
          remove-Removed local_ip h p inv k (find_pointer-found k n _ e).1 in
        (good, λ d m. has-perm d _ _ moved (ground (arith, m)))
  ]
