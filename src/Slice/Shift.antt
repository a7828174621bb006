-- ===== src/Slice/Shift.antt =====
-- Where the elements are after a removal, for code that ranges over the array all the same.
use peernet_core.Prelude.{
  ℕ, zero, suc, ◌+◌, ◌-◌, ◌<◌, ◌≡◌, refl, ap, ◌∙◌, true, List, [], ◌∷◌, ◌++◌, length, take, drop,
  get_elem?, arith, Bool-cases, inl, inr, length-take, length-drop, ltb→lt, ltb,
}
use peernet_core.Slice.{Slice, items, IsSlice, remove_at}

pub get_elem?-left :
    (xs ys : List ℕ) (i : ℕ) → i < length xs → get_elem? (xs ++ ys) i ≡ get_elem? xs i
get_elem?-left [] ys i h = absurd (omega arith)
get_elem?-left (x ∷ xs) ys zero h = refl
get_elem?-left (x ∷ xs) ys (suc i) h = get_elem?-left xs ys i (omega arith)

pub get_elem?-right :
    (xs ys : List ℕ) (i j : ℕ) → i ≡ length xs + j → get_elem? (xs ++ ys) i ≡ get_elem? ys j
get_elem?-right [] ys i j h = ap (get_elem? ys) (omega arith)
get_elem?-right (x ∷ xs) ys zero j h = absurd (omega arith)
get_elem?-right (x ∷ xs) ys (suc i) j h = get_elem?-right xs ys i j (omega arith)

pub get_elem?-drop :
    (m : ℕ) (xs : List ℕ) (i j : ℕ) → j ≡ m + i → get_elem? (drop m xs) i ≡ get_elem? xs j
get_elem?-drop zero xs i j h = ap (get_elem? xs) (omega arith)
get_elem?-drop (suc m) [] i j h = refl
get_elem?-drop (suc m) (x ∷ xs) i zero h = absurd (omega arith)
get_elem?-drop (suc m) (x ∷ xs) i (suc j) h = get_elem?-drop m xs i j (omega arith)

pub get_elem?-take :
    (m : ℕ) (xs : List ℕ) (i : ℕ) → i < m → get_elem? (take m xs) i ≡ get_elem? xs i
get_elem?-take zero xs i h = absurd (omega arith)
get_elem?-take (suc m) [] i h = refl
get_elem?-take (suc m) (x ∷ xs) zero h = refl
get_elem?-take (suc m) (x ∷ xs) (suc i) h = get_elem?-take m xs i (omega arith)

-- Behind the removed place, up to the old length, the array holds old elements of other places.
pub get_elem?-remove_at :
    (s : Slice) (n i : ℕ)
    → IsSlice s
    → n < i
    → i < s.len
    → (j : ℕ) × (n < j) × (j < s.len) × (get_elem? (remove_at s n).array i ≡ get_elem? s.array j)
unfolding remove_at
get_elem?-remove_at s n i sound lo hi =
    let inside : ltb n (s.len - 1) ≡ true = ground arith in
    let front = take n s.array in
    let moved = drop (suc n) (items s) in
    let tail = drop (s.len - 1) s.array in
    let length_front : length front ≡ n = omega (arith, length-take n s.array) in
    let length_moved : length moved ≡ s.len - suc n =
      omega (arith, length-drop (suc n) (items s), length-take s.len s.array) in
    let behind = get_elem?-right front (moved ++ tail) i (i - n) (omega arith) in
    elim (Bool-cases (ltb i (s.len - 1))) [
      | inl before ↦
          let lt = ltb→lt i (s.len - 1) before in
          (
            suc i,
            omega arith,
            omega arith,
            rw inside (
                behind
                ∙ get_elem?-left moved tail (i - n) (omega arith)
                ∙ get_elem?-drop (suc n) (items s) (i - n) (suc i) (omega arith)
                ∙ get_elem?-take s.len s.array (suc i) (omega arith)),
          )
      | inr last ↦
          let at : i ≡ s.len - 1 = ground arith in
          (
            i,
            lo,
            hi,
            rw inside (
                behind
                ∙ get_elem?-right moved tail (i - n) 0 (omega arith)
                ∙ get_elem?-drop (s.len - 1) s.array 0 i (omega arith)),
          )
    ]
