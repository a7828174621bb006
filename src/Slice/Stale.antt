-- ===== src/Slice/Stale.antt =====
-- What a loop finds that goes on in the array of a slice which has changed since.
use peernet_core.Prelude.{
  ℕ, zero, suc, ◌-◌, ◌<◌, ◌≡◌, sym, ◌∙◌, ◌⊎◌, inl, inr, true, List, [], ◌∷◌, ◌++◌, length, take,
  drop, set, get_elem?, some, arith, Bool-cases, ltb, ltb→lt, ◌≤◌, length-take, length-drop,
}
use peernet_core.Slice.{Slice, items, IsSlice, append, remove_at}
use peernet_core.Slice.Pointers.{has}
use peernet_core.Slice.Array.{has-get_elem?}
use peernet_core.Slice.Shift.{get_elem?-left, get_elem?-right, get_elem?-drop, get_elem?-take}

pub has-index :
    (s : Slice) (i x : ℕ) → i < s.len → get_elem? s.array i ≡ some x → has x (items s) ≡ true
has-index s i x lt e = has-get_elem? x i (items s) (get_elem?-take s.len s.array i lt ∙ e)

-- In the array of `t`, each place has what the array of `s` had there, an item of `s`, or `k`.
abbrev pub ComesFrom : ℕ → Slice → Slice → Type 0
ComesFrom k s t =
    (i x : ℕ)
    → get_elem? t.array i ≡ some x
    → (get_elem? s.array i ≡ some x) ⊎ ((has x (items s) ≡ true) ⊎ (x ≡ k))

get_elem?-set :
    (xs : List ℕ) (n v i x : ℕ)
    → get_elem? (set xs n v) i ≡ some x
    → (get_elem? xs i ≡ some x) ⊎ (x ≡ v)
get_elem?-set [] n v i x e = inl e
get_elem?-set (y ∷ xs) zero v zero x e = inr (cc)
get_elem?-set (y ∷ xs) zero v (suc i) x e = inl e
get_elem?-set (y ∷ xs) (suc n) v zero x e = inl e
get_elem?-set (y ∷ xs) (suc n) v (suc i) x e = get_elem?-set xs n v i x e

get_elem?-end :
    (xs : List ℕ) (v i x : ℕ) → get_elem? (xs ++ v ∷ []) i ≡ some x → (has x xs ≡ true) ⊎ (x ≡ v)
get_elem?-end [] v zero x e = inr (cc)
get_elem?-end [] v (suc i) x e = absurd (cc)
get_elem?-end (y ∷ xs) v zero x e = inl (ground arith)
get_elem?-end (y ∷ xs) v (suc i) x e = elim (get_elem?-end xs v i x e) [
  | inl there ↦ inl (ground arith)
  | inr same ↦ inr same
]

pub append-ComesFrom : (s : Slice) (k : ℕ) → ComesFrom k s (append s k)
unfolding append
append-ComesFrom s k i x = elim (Bool-cases (ltb s.len (length s.array))) [
  | inl room ↦ rw room (λ e. elim (get_elem?-set s.array s.len k i x e) [
    | inl old ↦ inl old
    | inr new ↦ inr (inr new)
  ])
  | inr full ↦ rw full (λ e. inr (get_elem?-end (items s) k i x e))
]

-- The array after an item in the middle is taken out, place by place.
shifted-ComesFrom :
    (s : Slice) (n k : ℕ)
    → IsSlice s
    → n < s.len - 1
    → (i x : ℕ)
    → get_elem? (take n s.array ++ (drop (suc n) (items s) ++ drop (s.len - 1) s.array)) i ≡ some x
    → (get_elem? s.array i ≡ some x) ⊎ ((has x (items s) ≡ true) ⊎ (x ≡ k))
shifted-ComesFrom s n k sound inside i x e =
    let front = take n s.array in
    let moved = drop (suc n) (items s) in
    let tail = drop (s.len - 1) s.array in
    let length_front : length front ≡ n = omega (arith, length-take n s.array) in
    let length_moved : length moved ≡ s.len - suc n =
      omega (arith, length-drop (suc n) (items s), length-take s.len s.array) in
    elim (Bool-cases (ltb i n)) [
      | inl before ↦
          let lt = ltb→lt i n before in
          inl (
            sym (get_elem?-take n s.array i lt)
            ∙ sym (get_elem?-left front (moved ++ tail) i (omega arith))
            ∙ e)
      | inr after ↦
          let ge : n ≤ i = ground arith in
          let behind = get_elem?-right front (moved ++ tail) i (i - n) (omega arith) in
          elim (Bool-cases (ltb i (s.len - 1))) [
            | inl inner ↦
                let lt = ltb→lt i (s.len - 1) inner in
                inr (
                  inl (
                    has-index s (suc i) x (omega arith) (
                      sym (
                        behind
                        ∙ get_elem?-left moved tail (i - n) (omega arith)
                        ∙ get_elem?-drop (suc n) (items s) (i - n) (suc i) (omega arith)
                        ∙ get_elem?-take s.len s.array (suc i) (omega arith))
                      ∙ e)))
            | inr outer ↦
                let le : s.len - 1 ≤ i = ground arith in
                inl (
                  sym (
                    behind
                    ∙ get_elem?-right moved tail (i - n) (i - (s.len - 1)) (omega arith)
                    ∙ get_elem?-drop (s.len - 1) s.array (i - (s.len - 1)) i (omega arith))
                  ∙ e)
          ]
    ]

pub remove_at-ComesFrom :
    (s : Slice) (n k : ℕ) → IsSlice s → n < s.len → ComesFrom k s (remove_at s n)
unfolding remove_at
remove_at-ComesFrom s n k sound inside i x = elim (Bool-cases (ltb n (s.len - 1))) [
  | inl middle ↦ rw middle (shifted-ComesFrom s n k sound (ltb→lt n (s.len - 1) middle) i x)
  | inr last ↦ rw last (λ e. inl e)
]
