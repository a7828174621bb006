-- ===== src/Slice/Laws.antt =====
-- Slices and the lists that they show.
use peernet_core.Prelude.{
  ℕ, zero, suc, ◌-◌, ◌≤◌, ◌<◌, ◌≡◌, refl, ap, List, [], ◌∷◌, ◌++◌, length, take, drop, set, arith,
  append_assoc, append-nil, Bool-cases, inl, inr, length-append, length-take, length-drop,
  take-append, take-all, drop-all, ltb→lt, ltb,
}
use peernet_core.Slice.{Slice, items, IsSlice, append, remove_at}

take-set : (xs : List ℕ) (n x : ℕ) → n < length xs → take (suc n) (set xs n x) ≡ take n xs ++ x ∷ []
take-set [] n x h = absurd (omega arith)
take-set (y ∷ xs) zero x h = refl
take-set (y ∷ xs) (suc n) x h = ap (◌∷◌ y) (take-set xs n x (omega arith))

take-take : (n m : ℕ) (xs : List ℕ) → n ≤ m → take n (take m xs) ≡ take n xs
take-take zero m xs h = refl
take-take (suc n) zero xs h = absurd (omega arith)
take-take (suc n) (suc m) [] h = refl
take-take (suc n) (suc m) (x ∷ xs) h = ap (◌∷◌ x) (take-take n m xs (omega arith))

length-set : (xs : List ℕ) (n x : ℕ) → length (set xs n x) ≡ length xs
length-set [] n x = refl
length-set (y ∷ xs) zero x = refl
length-set (y ∷ xs) (suc n) x = ap suc (length-set xs n x)

pub append-IsSlice : (s : Slice) (x : ℕ) → IsSlice s → IsSlice (append s x)
unfolding append
append-IsSlice s x h =
    ground (
      arith,
      length-set s.array s.len x,
      length-append (items s) (x ∷ []),
      length-take s.len s.array,
    )

-- Appending adds one item at the end.
pub items-append : (s : Slice) (x : ℕ) → IsSlice s → items (append s x) ≡ items s ++ x ∷ []
unfolding append
items-append s x h = elim (Bool-cases (ltb s.len (length s.array))) [
  | inl room ↦ rw room (take-set s.array s.len x (ground arith))
  | inr full ↦ rw full (
      take-all (suc s.len) (items s ++ x ∷ [])
        (omega (arith, length-append (items s) (x ∷ []), length-take s.len s.array)))
]

pub remove_at-IsSlice : (s : Slice) (n : ℕ) → IsSlice s → n < s.len → IsSlice (remove_at s n)
unfolding remove_at
remove_at-IsSlice s n h k = ground (
  arith,
  length-append (take n s.array) (drop (suc n) (items s) ++ drop (s.len - 1) s.array),
  length-append (drop (suc n) (items s)) (drop (s.len - 1) s.array),
  length-take n s.array,
  length-drop (suc n) (items s),
  length-drop (s.len - 1) s.array,
  length-take s.len s.array,
)

-- Removing takes out the item at an index in range.
pub items-remove_at :
    (s : Slice) (n : ℕ)
    → IsSlice s
    → n < s.len
    → items (remove_at s n) ≡ take n (items s) ++ drop (suc n) (items s)
unfolding remove_at
items-remove_at s n h k = elim (Bool-cases (ltb n (s.len - 1))) [
  | inl inside ↦
      let rest = drop (suc n) (items s) in
      let tail = drop (s.len - 1) s.array in
      rw
        (
          inside,
          ← append_assoc (take n s.array) rest tail,
          take-append (take n s.array ++ rest) tail (s.len - 1) (
              omega (
                arith,
                length-append (take n s.array) rest,
                length-take n s.array,
                length-drop (suc n) (items s),
                length-take s.len s.array,
                ltb→lt n (s.len - 1) inside,
              )),
          take-take n s.len s.array (omega arith),
        )
        refl
  | inr last ↦
      rw
        (
          last,
          take-take n s.len s.array (omega arith),
          drop-all (suc n) (items s) (ground (arith, length-take s.len s.array)),
          append-nil (take n s.array),
        )
        refl
]
