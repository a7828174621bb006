-- ===== src/Connection/Removal.antt =====
-- Connection.go, `removeInactiveConnection`: the invariant, and what is taken out.
use mathlib.Core.List.{Nodup, Perm, Nodup-cons, perm_middle}
use mathlib.Core.List.Perm
use peernet_core.Prelude.{
  ℕ, ◌≡◌, refl, sym, ap, ◌∙◌, true, false, ◌∷◌, ◌++◌, map, arith, inl, inr, Option-cases,
}
use peernet_core.Ip.{Bytes}
use peernet_core.Slice.{items}
use peernet_core.Slice.Pointers.{
  has, erase, find_pointer, find_pointer-found, has-find_pointer-none, has-append, has-erase_ne,
  perm-erase, has-rest,
}
use peernet_core.Connection.{
  Store, Connection, PeerInfo, inactive, removed, update, remove_inactive_connection,
}
use peernet_core.Connection.Lists.{endpoint, remove_at-erase}
use peernet_core.Connection.Invariant.{connections, IsConsistent}
use peernet_core.Connection.Moves.{Nodup-move, endpoint-update, ne_of_has, update-ne, update_self}

module _ (local_ip : ℕ → Bytes) (h : Store) {K : Type 0} (p : PeerInfo K) (c : ℕ) where
  -- The peer that `removeInactiveConnection` leaves.
  abbrev pub Removed : Store × PeerInfo K → Type 0
  Removed (h', p') =
      IsConsistent local_ip h' p'
      × Perm (connections p) (c ∷ connections p')
      × (has c (connections p') ≡ false)
      × ((h' c).status ≡ removed)
      × (p'.connection_active ≡ p.connection_active)
      × (p'.connection_latest ≡ p.connection_latest)

module _ (local_ip : ℕ → Bytes) (h : Store) {K : Type 0} (p : PeerInfo K)
    (inv : IsConsistent local_ip h p) (c : ℕ)
    (there : has c (items p.connection_inactive) ≡ true) where
  abbrev gone : Connection
  gone = record (h c) { status = removed }

  taken :
      Perm
        (connections p)
        (c ∷ (items p.connection_active ++ erase c (items p.connection_inactive)))
  taken =
      Perm.trans
        (Perm.append_left (items p.connection_active)
          (perm-erase c (items p.connection_inactive) there))
        (perm_middle (items p.connection_active) (erase c (items p.connection_inactive)))

  absent : has c (items p.connection_active ++ erase c (items p.connection_inactive)) ≡ false
  absent = has-rest (λ d. endpoint local_ip (h d)) c (connections p) _ taken inv.distinct

  apart : has c (items p.connection_active) ≡ false
  apart = ground (
    arith,
    absent,
    has-append c (items p.connection_active) (erase c (items p.connection_inactive)),
  )

  distinct_rest : Nodup (
      map
        (λ d. endpoint local_ip (update h c gone d))
        (items p.connection_active ++ erase c (items p.connection_inactive)))
  distinct_rest =
      (Nodup-cons.0 (
        Nodup-move (λ d. endpoint local_ip (h d)) (λ d. endpoint local_ip (update h c gone d)) _ _
          (endpoint-update local_ip h c gone refl) taken inv.distinct)).1

  status-rest :
      (d : ℕ)
      → has d (erase c (items p.connection_inactive)) ≡ true
      → (update h c gone d).status ≡ inactive
  status-rest d m =
      let lost : has c (erase c (items p.connection_inactive)) ≡ false = ground (
        arith,
        absent,
        has-append c (items p.connection_active) (erase c (items p.connection_inactive)),
      ) in
      let ne = ne_of_has c d _ lost m in
      ap (λ (z : Connection). z.status) (update-ne h c d gone ne)
      ∙ inv.inactive_status d (sym (has-erase_ne c d (items p.connection_inactive) ne) ∙ m)

  -- `removeInactiveConnection`, called on a connection of the inactive list, keeps the peer
  -- consistent, takes exactly that connection out, marks it as removed, and leaves the active
  -- connections and the latest one alone.
  pub remove-Removed : Removed local_ip h p c (remove_inactive_connection h p c)
  unfolding remove_inactive_connection
  remove-Removed = elim (Option-cases (find_pointer c (items p.connection_inactive))) [
    | inl e ↦ absurd (cc (has-find_pointer-none c (items p.connection_inactive) e))
    | inr (n, e) ↦
        let (inside, _, erased) = find_pointer-found c n (items p.connection_inactive) e in
        let (slice_ok, shown) =
          remove_at-erase p.connection_inactive c n inv.inactive_slice inside erased in
        rw (e, remove_inactive_connection)
          (
            record {
              active_slice = inv.active_slice;
              inactive_slice = slice_ok;
              distinct = rw shown distinct_rest;
              listed = inv.listed;
              active_status = λ d m.
                  ap (λ (z : Connection). z.status) (update-ne h c d gone (ne_of_has c d _ apart m))
                  ∙ inv.active_status d m;
              inactive_status = rw shown status-rest;
            },
            rw shown taken,
            rw shown absent,
            ap (λ (z : Connection). z.status) (update_self h c gone),
            refl,
            refl,
          )
  ]
