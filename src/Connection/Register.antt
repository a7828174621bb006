-- ===== src/Connection/Register.antt =====
-- Connection.go, `registerConnection`: a connection that the peer has, active or inactive.
use mathlib.Core.List.{Nodup, Perm}
use mathlib.Core.List.Perm
use peernet_core.Prelude.{
  ℕ, suc, ◌<◌, ◌≡◌, ◌≢◌, ◌⊎◌, refl, sym, ap, ◌∙◌, true, false, List, [], ◌∷◌, ◌++◌, map,
  append_assoc, length, take, drop, arith, Option, some, inl, inr, Bool-cases,
}
use peernet_core.Ip.{Bytes}
use peernet_core.Slice.{items, IsSlice, remove_at, append}
use peernet_core.Slice.Laws.{items-append, append-IsSlice}
use peernet_core.Slice.Pointers.{has, erase, has-append, has-erase_ne, perm-erase}
use peernet_core.Connection.{
  Store, Connection, PeerInfo, active, inactive, update, refreshed, renew, elevate,
}
use peernet_core.Connection.Lists.{endpoint, remove_at-erase}
use peernet_core.Connection.Invariant.{connections, expected, IsConsistent}
use peernet_core.Connection.Latest.{
  selected, set_latest_lem, selected_frame, selected_self, selected-endpoint, selected-status,
}
use peernet_core.Connection.Moves.{
  Nodup-move, endpoint-update, ne_of_has, update-ne, update_self, has-erase,
}

-- Two parts of a list with distinct images share no pointer.
apart :
    (f : ℕ → Bytes × Bytes) (d : ℕ) (xs ys : List ℕ)
    → Nodup (map f (xs ++ ys))
    → has d ys ≡ true
    → has d xs ≡ false
apart f d xs ys distinct there = elim (Bool-cases (has d xs)) [
  | inl both ↦ absurd (cc ((has-erase f d xs ys both distinct).1))
  | inr out ↦ out
]

module _ (local_ip : ℕ → Bytes) {K : Type 0} where
  -- Once the lists are right, `setConnectionLatest` makes the peer consistent.
  pub latest-IsConsistent :
      (h : Store) (p : PeerInfo K) (latest : Option ℕ) (c : ℕ)
      → IsSlice p.connection_active
      → IsSlice p.connection_inactive
      → Nodup (map (λ d. endpoint local_ip (h d)) (connections p))
      → p.connection_latest ≡ some c
      → has c (items p.connection_active) ≡ true
      → (h c).status ≡ active
      → ((d : ℕ)
          → has d (items p.connection_active) ≡ true
          → d ≢ c
          → (h d).status ≡ expected latest d)
      → ((d : ℕ) → has d (items p.connection_inactive) ≡ true → (h d).status ≡ inactive)
      → IsConsistent local_ip (selected h (items p.connection_active) latest c) p
  latest-IsConsistent h p latest c a i distinct e there at others idle = record {
    active_slice = a;
    inactive_slice = i;
    distinct =
        Nodup-move (λ d. endpoint local_ip (h d)) _ _ _
          (selected-endpoint h (items p.connection_active) latest c local_ip) (Perm.refl _)
          distinct;
    listed = rw e there;
    active_status = rw e (selected-status h (items p.connection_active) latest c at others);
    inactive_status = λ d m.
        ap (λ (z : Connection). z.status)
          (selected_frame h (items p.connection_active) latest c d (apart _ d _ _ distinct m))
        ∙ idle d m;
  }

-- Moving a pointer from the second list to the end of the first.
perm-elevate :
    (c : ℕ) (xs ys : List ℕ) → has c ys ≡ true → Perm (xs ++ ys) ((xs ++ c ∷ []) ++ erase c ys)
perm-elevate c xs ys there =
    rw (append_assoc xs (c ∷ []) (erase c ys)) (Perm.append_left xs (perm-erase c ys there))

pub has-snoc : (c : ℕ) (xs : List ℕ) → has c (xs ++ c ∷ []) ≡ true
has-snoc c xs = ground (arith, has-append c xs (c ∷ []))

pub has-snoc_ne : (c d : ℕ) (xs : List ℕ) → d ≢ c → has d (xs ++ c ∷ []) ≡ true → has d xs ≡ true
has-snoc_ne c d xs ne m = ground (arith, has-append d xs (c ∷ []))

port-refreshed :
    (c incoming : Connection) → (refreshed c incoming).address.port ≡ incoming.address.port
port-refreshed c incoming = ground arith

module _ (local_ip : ℕ → Bytes) (h : Store) {K : Type 0} (p : PeerInfo K)
    (inv : IsConsistent local_ip h p) (incoming : ℕ) where
  -- The peer and the connection after a packet came in on `incoming`: the peer is consistent; the
  -- connection is the latest, is active, and has the endpoint and the port of `incoming`; and
  -- either the peer has the connections that it had, or `incoming` is the connection and was added.
  abbrev pub Registered : Store × PeerInfo K × ℕ → Type 0
  Registered (h', p', c) =
      IsConsistent local_ip h' p'
      × (p'.connection_latest ≡ some c)
      × (endpoint local_ip (h' c) ≡ endpoint local_ip (h incoming))
      × ((h' c).address.port ≡ (h incoming).address.port)
      × ((h' c).status ≡ active)
      × (Perm (connections p) (connections p')
          ⊎ ((c ≡ incoming) × Perm (incoming ∷ connections p) (connections p')))

  module _ (c : ℕ) (same : endpoint local_ip (h c) ≡ endpoint local_ip (h incoming)) where
    abbrev h₁ : Store
    h₁ = update h c (refreshed (h c) (h incoming))

    abbrev chosen : List ℕ → Store
    chosen xs = selected h₁ xs p.connection_latest c

    at₁ : h₁ c ≡ refreshed (h c) (h incoming)
    at₁ = update_self h c (refreshed (h c) (h incoming))

    chosen_self : (xs : List ℕ) → chosen xs c ≡ refreshed (h c) (h incoming)
    chosen_self xs = selected_self h₁ xs p.connection_latest c ∙ at₁

    others :
        (d : ℕ)
        → has d (items p.connection_active) ≡ true
        → d ≢ c
        → (h₁ d).status ≡ expected p.connection_latest d
    others d m ne = ap (λ (z : Connection). z.status) (update-ne h c d _ ne) ∙ inv.active_status d m

    distinct₁ :
        (zs : List ℕ) → Perm (connections p) zs → Nodup (map (λ d. endpoint local_ip (h₁ d)) zs)
    distinct₁ zs q =
        Nodup-move (λ d. endpoint local_ip (h d)) _ _ _ (endpoint-update local_ip h c _ refl) q
          inv.distinct

    ending :
        (xs : List ℕ)
        → (endpoint local_ip (chosen xs c) ≡ endpoint local_ip (h incoming))
          × ((chosen xs c).address.port ≡ (h incoming).address.port)
          × ((chosen xs c).status ≡ active)
    ending xs = rw (chosen_self xs) (same, port-refreshed (h c) (h incoming), refl)

    pub renew-Registered :
        has c (items p.connection_active) ≡ true → Registered (renew local_ip h p c (h incoming))
    unfolding renew
    renew-Registered there =
        let (e, q, s) = ending (items p.connection_active) in
        let out = (has-erase (λ d. endpoint local_ip (h d)) c _ _ there inv.distinct).1 in
        rw (set_latest_lem h₁ p c) (
          latest-IsConsistent local_ip h₁ (record p { connection_latest = some c })
              p.connection_latest c inv.active_slice inv.inactive_slice (distinct₁ _ (Perm.refl _))
              refl there (ap (λ (z : Connection). z.status) at₁) others
              (λ d m.
                ap (λ (z : Connection). z.status) (update-ne h c d _ (ne_of_has c d _ out m))
                ∙ inv.inactive_status d m),
          refl,
          e,
          q,
          s,
          inl (Perm.refl _),
        )

    idle :
        has c (erase c (items p.connection_inactive)) ≡ false
        → (d : ℕ) → has d (erase c (items p.connection_inactive)) ≡ true
        → (h₁ d).status ≡ inactive
    idle lost d m =
        let ne = ne_of_has c d _ lost m in
        ap (λ (z : Connection). z.status) (update-ne h c d _ ne)
        ∙ inv.inactive_status d (sym (has-erase_ne c d (items p.connection_inactive) ne) ∙ m)

    pub elevate-Registered :
        (n : ℕ)
        → n < length (items p.connection_inactive)
        → has c (items p.connection_inactive) ≡ true
        → take n (items p.connection_inactive) ++ drop (suc n) (items p.connection_inactive)
          ≡ erase c (items p.connection_inactive)
        → Registered (elevate local_ip h p n c (h incoming))
    unfolding elevate
    elevate-Registered n inside there erased =
        let xs = items p.connection_active in
        let ys = items p.connection_inactive in
        let p₁ = record p { connection_active = append p.connection_active c } in
        let (ok, shown) =
          remove_at-erase p.connection_inactive c n inv.inactive_slice inside erased in
        let added = items-append p.connection_active c inv.active_slice in
        let (e, q, s) = ending (items p₁.connection_active) in
        let moved = perm-elevate c xs ys there in
        let absent = apart (λ d. endpoint local_ip (h d)) c xs ys inv.distinct there in
        rw (set_latest_lem h₁ p₁ c) (
          latest-IsConsistent local_ip h₁
              (record p₁ {
                connection_latest = some c;
                connection_inactive = remove_at p.connection_inactive n;
              })
              p.connection_latest c (append-IsSlice p.connection_active c inv.active_slice) ok
              (rw (added, shown) (distinct₁ _ moved)) refl (rw added (has-snoc c xs))
              (ap (λ (z : Connection). z.status) at₁)
              (rw added (λ d m ne. others d (has-snoc_ne c d xs ne m) ne))
              (rw shown (
                idle
                  (has-erase _ c (xs ++ c ∷ []) (erase c ys) (has-snoc c xs)
                    (distinct₁ _ moved)).1)),
          refl,
          e,
          q,
          s,
          inl (rw (added, shown) moved),
        )
