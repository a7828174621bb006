-- ===== src/Connection/Latest.antt =====
-- Connection.go, `setConnectionLatest`: which connections it marks.
use peernet_core.Prelude.{
  ℕ, ◌≡◌, ◌≢◌, refl, sym, ap, ◌∙◌, subst, Bool, true, false, ◌&&◌, not, List, [], ◌∷◌, arith,
  Option, none, some, ◌==◌, ==_iff, if◌then◌else◌, inl, inr, Bool-cases,
}
use peernet_core.Ip.{Bytes}
use peernet_core.Slice.Pointers.{has}
use peernet_core.Connection.{
  Store, Connection, PeerInfo, active, redundant, mark_redundant, update, is_latest,
  set_connection_latest,
}
use peernet_core.Slice.{items}
use peernet_core.Connection.Lists.{endpoint}
use peernet_core.Connection.Invariant.{expected}

pub mark_redundant-at :
    (h : Store) (latest : ℕ) (xs : List ℕ) (d : ℕ)
    → mark_redundant h latest xs d
      ≡ (if has d xs && not (d == latest) then record (h d) { status = redundant } else h d)
unfolding mark_redundant
mark_redundant-at h latest [] d = refl
mark_redundant-at h latest (x ∷ xs) d =
    let h' : Store = if x == latest then h else update h x (record (h x) { status = redundant }) in
    mark_redundant-at h' latest xs d ∙ ground arith

-- The store after `setConnectionLatest`.
pub selected : Store → List ℕ → Option ℕ → ℕ → Store
selected h xs latest c = if is_latest latest c then h else mark_redundant h c xs

eq_of_is_latest : (latest : Option ℕ) (c : ℕ) → is_latest latest c ≡ true → latest ≡ some c
eq_of_is_latest none c h = absurd (cc)
eq_of_is_latest (some l) c h = ap some ((==_iff l c).0 h)

-- `setConnectionLatest` sets the field on every path.
pub set_latest_lem :
    {K : Type 0} (h : Store) (p : PeerInfo K) (c : ℕ)
    → set_connection_latest h p c ≡ (
      selected h (items p.connection_active) p.connection_latest c,
      record p { connection_latest = some c },
    )
unfolding set_connection_latest selected
set_latest_lem h p c = elim (Bool-cases (is_latest p.connection_latest c)) [
  | inl same ↦ rw same (
      ap (λ l. (h, record p { connection_latest = l }))
        (eq_of_is_latest p.connection_latest c same))
  | inr other ↦ rw other refl
]

marked-endpoint :
    (local_ip : ℕ → Bytes) (v : Connection) (b : Bool)
    → endpoint local_ip (if b then record v { status = redundant } else v) ≡ endpoint local_ip v
marked-endpoint local_ip v true = refl
marked-endpoint local_ip v false = refl

status-kept :
    (h : Store) (latest : Option ℕ) (c d : ℕ)
    → latest ≡ some c
    → (h c).status ≡ active
    → (d ≢ c → (h d).status ≡ expected latest d)
    → (h d).status ≡ expected (some c) d
status-kept h latest c d e at other = elim (Bool-cases (d == c)) [
  | inl hit ↦
      subst (λ z. (h z).status ≡ expected (some c) z) (sym ((==_iff d c).0 hit)) (at ∙ ground arith)
  | inr miss ↦ subst (λ l. (h d).status ≡ expected l d) e (other (ground arith))
]

status-marked :
    (h : Store) (c d : ℕ)
    → (h c).status ≡ active
    → (if true && not (d == c) then record (h d) { status = redundant } else h d).status
      ≡ expected (some c) d
status-marked h c d at = elim (Bool-cases (d == c)) [
  | inl hit ↦
      subst
        (λ z.
          (if true && not (z == c) then record (h z) { status = redundant } else h z).status
          ≡ expected (some c) z)
        (sym ((==_iff d c).0 hit)) (ground arith)
  | inr miss ↦ ground arith
]

module _ (h : Store) (xs : List ℕ) (latest : Option ℕ) (c : ℕ) where
  pub selected_frame : (d : ℕ) → has d xs ≡ false → selected h xs latest c d ≡ h d
  unfolding selected
  selected_frame d out = ground (arith, mark_redundant-at h c xs d)

  pub selected_self : selected h xs latest c c ≡ h c
  unfolding selected
  selected_self = ground (arith, mark_redundant-at h c xs c)

  pub selected-endpoint :
      (local_ip : ℕ → Bytes) (d : ℕ)
      → endpoint local_ip (selected h xs latest c d) ≡ endpoint local_ip (h d)
  unfolding selected
  selected-endpoint local_ip d = elim (Bool-cases (is_latest latest c)) [
    | inl same ↦ rw same refl
    | inr other ↦
        rw (other, mark_redundant-at h c xs d)
          (marked-endpoint local_ip (h d) (has d xs && not (d == c)))
  ]

  -- With the latest one active and the others as expected before, they are as expected after.
  pub selected-status :
      (h c).status ≡ active
      → ((d : ℕ) → has d xs ≡ true → d ≢ c → (h d).status ≡ expected latest d)
      → (d : ℕ) → has d xs ≡ true
      → (selected h xs latest c d).status ≡ expected (some c) d
  unfolding selected
  selected-status at others d there = elim (Bool-cases (is_latest latest c)) [
    | inl same ↦
        rw same (status-kept h latest c d (eq_of_is_latest latest c same) at (others d there))
    | inr other ↦ rw (other, mark_redundant-at h c xs d, there) (status-marked h c d at)
  ]
