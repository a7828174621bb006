-- ===== src/Connection/Arrival.antt =====
-- Connection.go, `registerConnection`: a connection that the peer did not have, and the whole
-- function.
use mathlib.Core.List.{Mem, Nodup, Perm, Nodup-cons, perm_middle, mem-cons, not-mem-nil}
use mathlib.Core.List.Perm
use mathlib.Core.Logic.Or
use mathlib.Core.HLevel.{⊥_prop}
use peernet_core.Prelude.{
  ℕ, ◌≡◌, ◌≢◌, refl, sym, ap, ◌∙◌, true, List, [], ◌∷◌, ◌++◌, map, append_assoc, arith, none, some,
  inl, inr, Bool-cases, Option-cases,
}
use peernet_core.Ip.{Bytes}
use peernet_core.Slice.{items, append}
use peernet_core.Slice.Laws.{items-append, append-IsSlice}
use peernet_core.Slice.Pointers.{has, has-append}
use peernet_core.Connection.{
  Store, Connection, PeerInfo, active, add_new, register_connection, find_equal,
}
use peernet_core.Connection.Lists.{
  endpoint, find_equal-found, find_equal-none, connection_equal_iff,
}
use peernet_core.Connection.Invariant.{connections, IsConsistent}
use peernet_core.Connection.Latest.{set_latest_lem, selected_self}
use peernet_core.Connection.Register.{
  has-snoc, has-snoc_ne, latest-IsConsistent, Registered, renew-Registered, elevate-Registered,
}

-- No image in the list is `a` if none is at any of its pointers.
not-mem-map :
    (f : ℕ → Bytes × Bytes) (a : Bytes × Bytes) (zs : List ℕ)
    → ((d : ℕ) → has d zs ≡ true → f d ≢ a)
    → ¬ Mem a (map f zs)
not-mem-map f a [] other m = not-mem-nil m
not-mem-map f a (z ∷ zs) other m =
    Or.elim ⊥_prop (mem-cons.0 m) (λ e. other z (ground arith) (sym e))
      (not-mem-map f a zs (λ d there. other d (ground arith)))

module _ (local_ip : ℕ → Bytes) (h : Store) {K : Type 0} (p : PeerInfo K)
    (inv : IsConsistent local_ip h p) (incoming : ℕ) where
  module _ (fresh : (h incoming).status ≡ active)
      (unknown_active : find_equal local_ip h (h incoming) (items p.connection_active) ≡ none)
      (unknown_inactive : find_equal local_ip h (h incoming) (items p.connection_inactive)
        ≡ none) where
    other_endpoint :
        (d : ℕ)
        → has d (connections p) ≡ true
        → endpoint local_ip (h d) ≢ endpoint local_ip (h incoming)
    other_endpoint d there e =
        let eq = (connection_equal_iff local_ip (h d) (h incoming)).1 e in
        elim (Bool-cases (has d (items p.connection_active))) [
          | inl m ↦ absurd (cc (find_equal-none local_ip h (h incoming) d _ unknown_active m))
          | inr out ↦ absurd (
              cc (
                find_equal-none local_ip h (h incoming) d _ unknown_inactive (
                  ground (
                    arith,
                    has-append d (items p.connection_active) (items p.connection_inactive),
                  ))))
        ]

    perm_new :
        Perm
          (incoming ∷ connections p)
          ((items p.connection_active ++ incoming ∷ []) ++ items p.connection_inactive)
    perm_new =
        rw (append_assoc (items p.connection_active) (incoming ∷ []) (items p.connection_inactive))
          (Perm.symm (perm_middle (items p.connection_active) (items p.connection_inactive)))

    distinct_new : Nodup (map (λ d. endpoint local_ip (h d)) (incoming ∷ connections p))
    distinct_new =
        Nodup-cons.1 (
          not-mem-map (λ d. endpoint local_ip (h d)) _ (connections p) other_endpoint,
          inv.distinct,
        )

    add_new-Registered : Registered local_ip h p inv incoming (add_new h p incoming)
    unfolding add_new
    add_new-Registered =
        let xs = items p.connection_active in
        let p₁ = record p { connection_active = append p.connection_active incoming } in
        let added = items-append p.connection_active incoming inv.active_slice in
        let self = selected_self h (items p₁.connection_active) p.connection_latest incoming in
        rw (set_latest_lem h p₁ incoming) (
          latest-IsConsistent local_ip h (record p₁ { connection_latest = some incoming })
              p.connection_latest incoming
              (append-IsSlice p.connection_active incoming inv.active_slice) inv.inactive_slice
              (rw added (Perm.nodup (Perm.map _ perm_new) distinct_new)) refl
              (rw added (has-snoc incoming xs)) fresh
              (rw added (λ d m ne. inv.active_status d (has-snoc_ne incoming d xs ne m)))
              inv.inactive_status,
          refl,
          ap (endpoint local_ip) self,
          ap (λ (z : Connection). z.address.port) self,
          ap (λ (z : Connection). z.status) self ∙ fresh,
          inr (refl, rw added perm_new),
        )

  -- `registerConnection`, called with an active connection on a consistent peer, leaves the peer
  -- consistent. The connection that it returns is the latest one, is active, and has the remote
  -- IP, the local IP and the port of the incoming one; it is one that the peer already had, or the
  -- incoming one, which is then the only one added.
  pub register-Registered :
      (h incoming).status ≡ active
      → Registered local_ip h p inv incoming (register_connection local_ip h p incoming)
  unfolding register_connection
  register-Registered fresh =
      elim (Option-cases (find_equal local_ip h (h incoming) (items p.connection_active))) [
        | inr ((n, c), e) ↦
            let (_, there, equal, _) = find_equal-found local_ip h (h incoming) n c _ e in
            rw (e, register_connection)
              (renew-Registered local_ip h p inv incoming c
                ((connection_equal_iff local_ip (h c) (h incoming)).0 equal) there)
        | inl e ↦
            elim (Option-cases (find_equal local_ip h (h incoming) (items p.connection_inactive))) [
              | inr ((n, c), e') ↦
                  let (inside, there, equal, erased) =
                    find_equal-found local_ip h (h incoming) n c _ e' in
                  rw (e, e', register_connection)
                    (elevate-Registered local_ip h p inv incoming c
                      ((connection_equal_iff local_ip (h c) (h incoming)).0 equal) n inside there
                      erased)
              | inl e' ↦ rw (e, e', register_connection) (add_new-Registered fresh e e')
            ]
      ]
