-- ===== src/Slice/Pointers.antt =====
-- Lists of pointers: membership as a test, the search for a pointer, and the removal of one.
use mathlib.Core.List.{Mem, Nodup, Nodup-cons, Perm, mem-cons_self, mem-cons_of_mem}
use mathlib.Core.List.Perm
use mathlib.Core.List.{mem-cons, not-mem-nil}
use mathlib.Core.Logic.Or
use mathlib.Core.HLevel.{⊥_prop}
use peernet_core.Prelude.{
  ℕ, zero, suc, ◌<◌, ◌≡◌, ◌≢◌, refl, sym, subst, Bool, true, false, ◌||◌, List, [], ◌∷◌, ◌++◌, map,
  length, take, drop, arith, Option, none, some, ◌==◌, ==_iff, if◌then◌else◌, Bool-cases, inl, inr,
}

abbrev pub has : ℕ → List ℕ → Bool
has c [] = false
has c (x ∷ xs) = (x == c) || has c xs

-- The list without the first `c`.
unfoldable pub erase : ℕ → List ℕ → List ℕ
erase c [] = []
erase c (x ∷ xs) = if x == c then xs else x ∷ erase c xs

-- `for n, connection := range list { if connection == input {…} }`
unfoldable pub find_pointer : ℕ → List ℕ → Option ℕ
find_pointer c [] = none
find_pointer c (x ∷ xs) =
    let rest = find_pointer c xs in
    if x == c then some 0 else elim rest [ none ↦ none | some n ↦ some (suc n) ]

pub has-append : (c : ℕ) (xs ys : List ℕ) → has c (xs ++ ys) ≡ (has c xs || has c ys)
has-append c [] ys = refl
has-append c (x ∷ xs) ys = ground (arith, has-append c xs ys)

pub has-erase_ne : (c d : ℕ) (xs : List ℕ) → d ≢ c → has d (erase c xs) ≡ has d xs
unfolding erase
has-erase_ne c d [] h = refl
has-erase_ne c d (x ∷ xs) h = ground (arith, has-erase_ne c d xs h)

pub has-erase_of : (c d : ℕ) (xs : List ℕ) → has d (erase c xs) ≡ true → has d xs ≡ true
unfolding erase
has-erase_of c d [] h = h
has-erase_of c d (x ∷ xs) h = ground (arith, has-erase_of c d xs)

pub has-find_pointer-none : (c : ℕ) (xs : List ℕ) → find_pointer c xs ≡ none → has c xs ≡ false
unfolding find_pointer
has-find_pointer-none c [] h = refl
has-find_pointer-none c (x ∷ xs) h = ground (arith, has-find_pointer-none c xs)

-- What a successful search found.
pub find_pointer-found :
    (c n : ℕ) (xs : List ℕ)
    → find_pointer c xs ≡ some n
    → (n < length xs) × (has c xs ≡ true) × (take n xs ++ drop (suc n) xs ≡ erase c xs)
unfolding find_pointer erase
find_pointer-found c n [] h = absurd (cc)
find_pointer-found c zero (x ∷ xs) h = ground arith
find_pointer-found c (suc n) (x ∷ xs) h = ground (arith, find_pointer-found c n xs)

pub perm-erase : (c : ℕ) (xs : List ℕ) → has c xs ≡ true → Perm xs (c ∷ erase c xs)
unfolding erase
perm-erase c [] h = absurd (cc)
perm-erase c (x ∷ xs) h = elim (Bool-cases (x == c)) [
  | inl hit ↦ rw hit (Perm.cons' ((==_iff x c).0 hit) (Perm.refl xs))
  | inr miss ↦
      rw miss
        (Perm.trans (Perm.cons x (perm-erase c xs (ground arith))) (Perm.swap c x (erase c xs)))
]

module _ {ℓ} {A : Type ℓ} (f : ℕ → A) where
  pub mem-map_of_has : (c : ℕ) (xs : List ℕ) → has c xs ≡ true → Mem (f c) (map f xs)
  mem-map_of_has c [] h = absurd (cc)
  mem-map_of_has c (x ∷ xs) h = elim (Bool-cases (x == c)) [
    | inl hit ↦ subst (λ z. Mem (f c) (f z ∷ map f xs)) (sym ((==_iff x c).0 hit)) mem-cons_self
    | inr miss ↦ mem-cons_of_mem (f x) (mem-map_of_has c xs (ground arith))
  ]

  pub has_of_not-mem : (c : ℕ) (xs : List ℕ) → ¬ Mem (f c) (map f xs) → has c xs ≡ false
  has_of_not-mem c xs h = elim (Bool-cases (has c xs)) [
    | inl there ↦ absurd (h (mem-map_of_has c xs there))
    | inr gone ↦ gone
  ]

  -- Where the images are distinct, a pointer is there once.
  pub has-rest :
      (c : ℕ) (xs rest : List ℕ) → Perm xs (c ∷ rest) → Nodup (map f xs) → has c rest ≡ false
  has-rest c xs rest p nodup =
      has_of_not-mem c rest (Nodup-cons.0 (Perm.nodup (Perm.map f p) nodup)).0

pub erase-absent : (c : ℕ) (xs : List ℕ) → has c xs ≡ false → erase c xs ≡ xs
unfolding erase
erase-absent c [] h = refl
erase-absent c (x ∷ xs) h = ground (arith, erase-absent c xs)

mem_of_has : (c : ℕ) (xs : List ℕ) → has c xs ≡ true → Mem c xs
mem_of_has c [] h = absurd (cc)
mem_of_has c (x ∷ xs) h = elim (Bool-cases (x == c)) [
  | inl hit ↦ subst (λ z. Mem c (z ∷ xs)) (sym ((==_iff x c).0 hit)) mem-cons_self
  | inr miss ↦ mem-cons_of_mem x (mem_of_has c xs (ground arith))
]

not-mem_of_has : (c : ℕ) (xs : List ℕ) → has c xs ≡ false → ¬ Mem c xs
not-mem_of_has c [] h m = not-mem-nil m
not-mem_of_has c (x ∷ xs) h m =
    Or.elim ⊥_prop (mem-cons.0 m) (λ e. ground (arith, h, e)) (not-mem_of_has c xs (ground arith))

-- A permutation has the same pointers.
pub has-perm : (c : ℕ) (xs ys : List ℕ) → Perm xs ys → has c ys ≡ true → has c xs ≡ true
has-perm c xs ys p there = elim (Bool-cases (has c xs)) [
  | inl found ↦ found
  | inr gone ↦ absurd (not-mem_of_has c xs gone ((Perm.mem_iff p).1 (mem_of_has c ys there)))
]
