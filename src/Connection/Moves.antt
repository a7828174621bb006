-- ===== src/Connection/Moves.antt =====
-- Connection.go, `invalidateActiveConnection`: the invariant, and where the connection goes.
use mathlib.Core.List.{Nodup, Perm, perm_append_singleton}
use mathlib.Core.List.Perm
use mathlib.Core.Path.{fun_ext}
use peernet_core.Prelude.{
  ℕ, ◌+◌, ◌*◌, ◌≡◌, ◌≢◌, refl, sym, ap, ◌∙◌, subst, true, false, List, [], ◌∷◌, ◌++◌, map,
  append_assoc, arith, Option, none, some, ◌==◌, ==_iff, if◌then◌else◌, inl, inr, Bool-cases,
  Option-cases,
}
use peernet_core.Ip.{Bytes}
use peernet_core.Slice.{items, IsSlice}
use peernet_core.Slice.Laws.{items-append, append-IsSlice}
use peernet_core.Slice.Pointers.{
  has, erase, erase-absent, find_pointer, find_pointer-found, has-find_pointer-none, has-append,
  has-erase_ne, perm-erase, has-rest,
}
use peernet_core.Connection.{
  Store, Connection, PeerInfo, inactive, update, is_latest, invalidate_active_connection, second,
  connection_remove,
}
use peernet_core.Connection.Lists.{endpoint, remove_at-erase}
use peernet_core.Connection.Invariant.{connections, expected, IsListed, IsConsistent}

-- A pointer that is taken out is not in the rest, and has gone from the whole list.
pub has-erase :
    (f : ℕ → Bytes × Bytes) (c : ℕ) (xs ys : List ℕ)
    → has c xs ≡ true
    → Nodup (map f (xs ++ ys))
    → (has c (erase c xs) ≡ false) × (has c ys ≡ false)
has-erase f c xs ys there distinct =
    let gone =
      has-rest f c (xs ++ ys) (erase c xs ++ ys) (Perm.append_right ys (perm-erase c xs there))
        distinct in
    ground (arith, gone, has-append c (erase c xs) ys)

-- Moving a pointer from the first list to the end of the second.
pub perm-move :
    (c : ℕ) (xs ys : List ℕ) → has c xs ≡ true → Perm (xs ++ ys) (erase c xs ++ (ys ++ c ∷ []))
perm-move c xs ys there = Perm.trans (Perm.append_right ys (perm-erase c xs there)) (
    subst (Perm (c ∷ (erase c xs ++ ys))) (append_assoc (erase c xs) ys (c ∷ []))
      (Perm.symm (perm_append_singleton c (erase c xs ++ ys))))

-- Distinctness survives a permutation and a change of the store that keeps the endpoints.
pub Nodup-move :
    (f g : ℕ → Bytes × Bytes) (xs ys : List ℕ)
    → ((d : ℕ) → g d ≡ f d)
    → Perm xs ys
    → Nodup (map f xs)
    → Nodup (map g ys)
Nodup-move f g xs ys same p n = rw (fun_ext same) (Perm.nodup (Perm.map f p) n)

-- A change that leaves the endpoint of the connection alone.
pub endpoint-update :
    (local_ip : ℕ → Bytes) (h : Store) (c : ℕ) (v : Connection)
    → endpoint local_ip v ≡ endpoint local_ip (h c)
    → (d : ℕ) → endpoint local_ip (update h c v d) ≡ endpoint local_ip (h d)
endpoint-update local_ip h c v e d = elim (Bool-cases (d == c)) [
  | inl hit ↦ rw (hit, (==_iff d c).0 hit) e
  | inr miss ↦ rw miss refl
]

-- `connectionLatest` after a connection is taken out of use.
abbrev without : Option ℕ → ℕ → Option ℕ
without latest c = if is_latest latest c then none else latest

IsListed-without :
    (latest : Option ℕ) (c : ℕ) (xs : List ℕ)
    → IsListed latest xs
    → IsListed (without latest c) (erase c xs)
IsListed-without none c xs h = tt
IsListed-without (some l) c xs h = elim (Bool-cases (l == c)) [
  | inl hit ↦ rw hit tt
  | inr miss ↦ rw miss (has-erase_ne c l xs (ground arith) ∙ h)
]

expected-without :
    (latest : Option ℕ) (c d : ℕ) → d ≢ c → expected (without latest c) d ≡ expected latest d
expected-without none c d h = refl
expected-without (some l) c d h = ground arith

is_latest-without : (latest : Option ℕ) (c : ℕ) → is_latest (without latest c) c ≡ false
is_latest-without none c = refl
is_latest-without (some l) c = ground arith

without-unlisted :
    (latest : Option ℕ) (c : ℕ) (xs : List ℕ)
    → has c xs ≡ false
    → IsListed latest xs
    → without latest c ≡ latest
without-unlisted none c xs gone h = refl
without-unlisted (some l) c xs gone h = elim (Bool-cases (l == c)) [
  | inl hit ↦ absurd (cc (ap (λ (z : ℕ). has z xs) ((==_iff l c).0 hit)))
  | inr miss ↦ rw miss refl
]

-- A member of a list that has no `c` is another pointer.
pub ne_of_has : (c d : ℕ) (xs : List ℕ) → has c xs ≡ false → has d xs ≡ true → d ≢ c
ne_of_has c d xs gone there e = absurd (cc (ap (λ (z : ℕ). has z xs) e))

pub update-ne : (h : Store) (c d : ℕ) (v : Connection) → d ≢ c → update h c v d ≡ h d
update-ne h c d v ne = ground arith

pub update_self : (h : Store) (c : ℕ) (v : Connection) → update h c v c ≡ v
update_self h c v = ground arith

module _ (local_ip : ℕ → Bytes) (h : Store) {K : Type 0} (p : PeerInfo K)
    (inv : IsConsistent local_ip h p) (c now : ℕ) where
  abbrev invalidated : Connection
  invalidated = record (h c) { status = inactive; expires = now + connection_remove * second }

  status-erased :
      has c (erase c (items p.connection_active)) ≡ false
      → (d : ℕ) → has d (erase c (items p.connection_active)) ≡ true
      → (update h c invalidated d).status ≡ expected (without p.connection_latest c) d
  status-erased gone d m =
      let ne = ne_of_has c d (erase c (items p.connection_active)) gone m in
      ap (λ (z : Connection). z.status) (update-ne h c d invalidated ne)
      ∙ inv.active_status d (sym (has-erase_ne c d (items p.connection_active) ne) ∙ m)
      ∙ sym (expected-without p.connection_latest c d ne)

  status-inactive :
      (d : ℕ)
      → has d (items p.connection_inactive) ≡ true
      → (update h c invalidated d).status ≡ inactive
  status-inactive d m = ground (arith, inv.inactive_status d m)

  status-added :
      (d : ℕ)
      → has d (items p.connection_inactive ++ c ∷ []) ≡ true
      → (update h c invalidated d).status ≡ inactive
  status-added d m =
      ground (arith, has-append d (items p.connection_inactive) (c ∷ []), inv.inactive_status d)

  -- The peer that `invalidateActiveConnection` leaves.
  abbrev pub Invalidated : Store × PeerInfo K → Type 0
  Invalidated (h', p') =
      IsConsistent local_ip h' p'
      × Perm (connections p) (connections p')
      × (has c (items p'.connection_active) ≡ false)
      × (is_latest p'.connection_latest c ≡ false)
      × (h' c ≡ record (h c) { status = inactive; expires = now + connection_remove * second })

  invalidate_listed :
      (n : ℕ)
      → find_pointer c (items p.connection_active) ≡ some n
      → Invalidated (invalidate_active_connection h p c now)
  unfolding invalidate_active_connection
  invalidate_listed n e =
      let (inside, there, erased) = find_pointer-found c n (items p.connection_active) e in
      let (slice_ok, shown) =
        remove_at-erase p.connection_active c n inv.active_slice inside erased in
      let added = items-append p.connection_inactive c inv.inactive_slice in
      let (gone, apart) =
        has-erase (λ d. endpoint local_ip (h d)) c (items p.connection_active)
          (items p.connection_inactive) there inv.distinct in
      let moved = perm-move c (items p.connection_active) (items p.connection_inactive) there in
      rw (e, invalidate_active_connection)
        (
          record {
            active_slice = slice_ok;
            inactive_slice = append-IsSlice p.connection_inactive c inv.inactive_slice;
            distinct =
                rw (shown, added)
                  (Nodup-move (λ d. endpoint local_ip (h d)) _ _ _
                    (endpoint-update local_ip h c invalidated refl) moved inv.distinct);
            listed =
                rw shown
                  (IsListed-without p.connection_latest c (items p.connection_active) inv.listed);
            active_status = rw shown (status-erased gone);
            inactive_status = rw added status-added;
          },
          rw (shown, added) moved,
          rw shown gone,
          is_latest-without p.connection_latest c,
          update_self h c invalidated,
        )

  invalidate_unlisted :
      find_pointer c (items p.connection_active) ≡ none
      → Invalidated (invalidate_active_connection h p c now)
  unfolding invalidate_active_connection
  invalidate_unlisted e =
      let gone = has-find_pointer-none c (items p.connection_active) e in
      let kept =
        without-unlisted p.connection_latest c (items p.connection_active) gone inv.listed in
      rw (e, invalidate_active_connection)
        (
          record {
            active_slice = inv.active_slice;
            inactive_slice = inv.inactive_slice;
            distinct =
                Nodup-move (λ d. endpoint local_ip (h d)) _ _ _
                  (endpoint-update local_ip h c invalidated refl) (Perm.refl _) inv.distinct;
            listed = rw kept inv.listed;
            active_status = rw kept (λ d m.
                ap (λ (z : Connection). z.status)
                  (update-ne h c d invalidated (ne_of_has c d _ gone m))
                ∙ inv.active_status d m);
            inactive_status = status-inactive;
          },
          Perm.refl _,
          gone,
          is_latest-without p.connection_latest c,
          update_self h c invalidated,
        )

  -- `invalidateActiveConnection` keeps a peer's connections consistent and loses none; the
  -- connection that it is called on is no longer active nor the latest, is inactive and expires
  -- two minutes later.
  pub invalidate-Invalidated : Invalidated (invalidate_active_connection h p c now)
  invalidate-Invalidated = elim (Option-cases (find_pointer c (items p.connection_active))) [
    | inl e ↦ invalidate_unlisted e
    | inr (n, e) ↦ invalidate_listed n e
  ]

module _ (h : Store) {K : Type 0} (p : PeerInfo K) (c now : ℕ) where
  -- The active list loses the connection, wherever it was.
  pub items-invalidate :
      IsSlice p.connection_active
      → items (invalidate_active_connection h p c now).1.connection_active
        ≡ erase c (items p.connection_active)
  unfolding invalidate_active_connection
  items-invalidate ok = elim (Option-cases (find_pointer c (items p.connection_active))) [
    | inl e ↦
        rw (e, invalidate_active_connection) (sym (erase-absent c _ (has-find_pointer-none c _ e)))
    | inr (n, e) ↦
        let (inside, _, erased) = find_pointer-found c n _ e in
        rw (e, invalidate_active_connection)
          (remove_at-erase p.connection_active c n ok inside erased).1
  ]

  pub store-invalidate :
      (invalidate_active_connection h p c now).0
      ≡ update h c (record (h c) { status = inactive; expires = now + connection_remove * second })
  unfolding invalidate_active_connection
  store-invalidate = ground arith
