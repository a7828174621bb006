-- ===== src/Connection/Frame.antt =====
-- Connection.go: a peer and the parts of the store that it does not have.
use mathlib.Core.List.{Nodup}
use peernet_core.Prelude.{
  ℕ, ◌≡◌, ◌≢◌, refl, sym, ap, ap₂, ◌∙◌, subst, true, false, List, [], ◌∷◌, map, arith, Bool-cases,
  Option-cases, inl, inr,
}
use peernet_core.Ip.{Bytes}
use peernet_core.Slice.{items, IsSlice, append}
use peernet_core.Slice.Laws.{items-append}
use peernet_core.Slice.Pointers.{has, has-append}
use peernet_core.Connection.{
  Store, PeerInfo, update, is_latest, mark_redundant, set_connection_latest, register_connection,
  renew, elevate, add_new, find_equal,
}
use peernet_core.Connection.Moves.{update-ne, ne_of_has}
use peernet_core.Connection.Lists.{endpoint, find_equal-found}
use peernet_core.Connection.Invariant.{connections, IsConsistent}

map-agree :
    (f g : ℕ → Bytes × Bytes) (xs : List ℕ)
    → ((d : ℕ) → has d xs ≡ true → f d ≡ g d)
    → map f xs ≡ map g xs
map-agree f g [] same = refl
map-agree f g (x ∷ xs) same =
    ap₂ ◌∷◌ (same x (ground arith)) (map-agree f g xs (λ d m. same d (ground arith)))

pub IsConsistent-agree :
    (local_ip : ℕ → Bytes) (h h' : Store) {K : Type 0} (p : PeerInfo K)
    → ((d : ℕ)
        → has d (connections p) ≡ true
        → (endpoint local_ip (h' d) ≡ endpoint local_ip (h d)) × ((h' d).status ≡ (h d).status))
    → IsConsistent local_ip h p
    → IsConsistent local_ip h' p
IsConsistent-agree local_ip h h' p same inv =
    let in_active : (d : ℕ)
        → has d (items p.connection_active) ≡ true
        → has d (connections p) ≡ true =
      λ d m.
        ground (arith, m, has-append d (items p.connection_active) (items p.connection_inactive)) in
    let in_inactive : (d : ℕ)
        → has d (items p.connection_inactive) ≡ true
        → has d (connections p) ≡ true =
      λ d m.
        ground (arith, m, has-append d (items p.connection_active) (items p.connection_inactive)) in
    record {
      active_slice = inv.active_slice;
      inactive_slice = inv.inactive_slice;
      distinct =
          subst Nodup
            (sym (
              map-agree (λ d. endpoint local_ip (h' d)) (λ d. endpoint local_ip (h d))
                (connections p) (λ d m. (same d m).0)))
            inv.distinct;
      listed = inv.listed;
      active_status = λ d m. (same d (in_active d m)).1 ∙ inv.active_status d m;
      inactive_status = λ d m. (same d (in_inactive d m)).1 ∙ inv.inactive_status d m;
    }

mark_redundant-outside :
    (latest d : ℕ) (xs : List ℕ) (h : Store) → has d xs ≡ false → mark_redundant h latest xs d ≡ h d
unfolding mark_redundant
mark_redundant-outside latest d [] h out = refl
mark_redundant-outside latest d (x ∷ xs) h out =
    mark_redundant-outside latest d xs _ (ground arith) ∙ ground arith

set_latest-outside :
    (h : Store) {K : Type 0} (p : PeerInfo K) (latest d : ℕ)
    → has d (items p.connection_active) ≡ false
    → (set_connection_latest h p latest).0 d ≡ h d
unfolding set_connection_latest
set_latest-outside h p latest d out = elim (Bool-cases (is_latest p.connection_latest latest)) [
  | inl hit ↦ rw (hit, set_connection_latest) refl
  | inr miss ↦
      rw (miss, set_connection_latest)
        (mark_redundant-outside latest d (items p.connection_active) h out)
]

module _ (local_ip : ℕ → Bytes) (h : Store) {K : Type 0} (p : PeerInfo K) (incoming d : ℕ)
    (sound : IsSlice p.connection_active) (out : has d (connections p) ≡ false)
    (ne : d ≢ incoming) where
  out_active : has d (items p.connection_active) ≡ false
  out_active =
      ground (arith, has-append d (items p.connection_active) (items p.connection_inactive))

  out_inactive : has d (items p.connection_inactive) ≡ false
  out_inactive =
      ground (arith, has-append d (items p.connection_active) (items p.connection_inactive))

  out_longer : (c : ℕ) → d ≢ c → has d (items (append p.connection_active c)) ≡ false
  out_longer c ne' =
      ap (has d) (items-append p.connection_active c sound)
      ∙ has-append d (items p.connection_active) (c ∷ [])
      ∙ ground (arith, out_active)

  -- `registerConnection` writes to no connection but the peer's own and the incoming one.
  pub register-outside : (register_connection local_ip h p incoming).0 d ≡ h d
  unfolding register_connection renew elevate add_new
  register-outside =
      elim (Option-cases (find_equal local_ip h (h incoming) (items p.connection_active))) [
        | inr ((n, c), e) ↦
            let (_, there, _, _) = find_equal-found local_ip h (h incoming) n c _ e in
            let other = ne_of_has d c _ out_active there in
            rw (e, register_connection)
              (set_latest-outside (update h c _) p c d out_active
                ∙ update-ne h c d _ (λ same. other (sym same)))
        | inl e ↦
            elim (Option-cases (find_equal local_ip h (h incoming) (items p.connection_inactive))) [
              | inr ((n, c), e') ↦
                  let (_, there, _, _) = find_equal-found local_ip h (h incoming) n c _ e' in
                  let other = ne_of_has d c _ out_inactive there in
                  rw (e, e', register_connection)
                    (set_latest-outside (update h c _)
                        (record p { connection_active = append p.connection_active c }) c d
                        (out_longer c (λ same. other (sym same)))
                      ∙ update-ne h c d _ (λ same. other (sym same)))
              | inl e' ↦
                  rw (e, e', register_connection)
                    (set_latest-outside h
                      (record p { connection_active = append p.connection_active incoming })
                      incoming d (out_longer incoming ne))
            ]
      ]
