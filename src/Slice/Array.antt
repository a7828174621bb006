-- ===== src/Slice/Array.antt =====
-- What a slice's whole array holds after an append or a removal: nothing that was not there, but
-- for the appended pointer.
use peernet_core.Prelude.{
  ℕ, zero, suc, ◌-◌, ◌≡◌, ◌⊎◌, inl, inr, true, List, [], ◌∷◌, ◌++◌, length, take, drop, set,
  get_elem?, some, arith, Bool-cases, ltb,
}
use peernet_core.Slice.{Slice, items, append, remove_at}
use peernet_core.Slice.Pointers.{has, has-append}

has-take : (c n : ℕ) (xs : List ℕ) → has c (take n xs) ≡ true → has c xs ≡ true
has-take c zero xs h = absurd (cc)
has-take c (suc n) [] h = h
has-take c (suc n) (x ∷ xs) h = ground (arith, has-take c n xs)

has-drop : (c n : ℕ) (xs : List ℕ) → has c (drop n xs) ≡ true → has c xs ≡ true
has-drop c zero xs h = h
has-drop c (suc n) [] h = h
has-drop c (suc n) (x ∷ xs) h = ground (arith, has-drop c n xs)

has-set : (c n v : ℕ) (xs : List ℕ) → has c (set xs n v) ≡ true → (c ≡ v) ⊎ (has c xs ≡ true)
has-set c n v [] h = inr h
has-set c zero v (x ∷ xs) h = ground arith
has-set c (suc n) v (x ∷ xs) h = ground (arith, has-set c n v xs)

pub has-get_elem? : (c n : ℕ) (xs : List ℕ) → get_elem? xs n ≡ some c → has c xs ≡ true
has-get_elem? c n [] h = absurd (cc)
has-get_elem? c zero (x ∷ xs) h = ground arith
has-get_elem? c (suc n) (x ∷ xs) h = ground (arith, has-get_elem? c n xs)

-- The items are in the array.
pub has-items : (c : ℕ) (s : Slice) → has c (items s) ≡ true → has c s.array ≡ true
has-items c s = has-take c s.len s.array

pub array-append :
    (s : Slice) (x c : ℕ) → has c (append s x).array ≡ true → (c ≡ x) ⊎ (has c s.array ≡ true)
unfolding append
array-append s x c h = elim (Bool-cases (ltb s.len (length s.array))) [
  | inl room ↦ has-set c s.len x s.array (ground (arith, h, room))
  | inr full ↦ ground (arith, h, full, has-append c (items s) (x ∷ []), has-items c s)
]

pub array-remove_at :
    (s : Slice) (n c : ℕ) → has c (remove_at s n).array ≡ true → has c s.array ≡ true
unfolding remove_at
array-remove_at s n c h =
    let moved = drop (suc n) (items s) in
    let tail = drop (s.len - 1) s.array in
    ground (
      arith,
      h,
      has-append c (take n s.array) (moved ++ tail),
      has-append c moved tail,
      has-take c n s.array,
      has-drop c (suc n) (items s),
      has-items c s,
      has-drop c (s.len - 1) s.array,
    )
