-- ===== src/Prelude/Lists.antt =====
-- Lists measured, cut and overwritten by native numbers, under the library's names.
use Prim.Native.Nat.{ℕ, zero, suc, ◌+◌, ◌-◌, ◌≤◌, min}
use mathlib.Core.Path.{◌≡◌, refl, ap, ◌∙◌, subst}
use mathlib.Core.List.{List, [], ◌∷◌, ◌++◌, append_assoc, append-nil}
use mathlib.Core.Option.{Option, none, some}
use native.Mathlib.Omega.{arith}

module _ {ℓ} {A : Type ℓ} where
  abbrev pub length : List A → ℕ
  length [] = 0
  length (x ∷ xs) = suc (length xs)

  abbrev pub get_elem? : List A → ℕ → Option A
  get_elem? [] i = none
  get_elem? (x ∷ xs) zero = some x
  get_elem? (x ∷ xs) (suc i) = get_elem? xs i

  abbrev pub set : List A → ℕ → A → List A
  set [] i v = []
  set (x ∷ xs) zero v = v ∷ xs
  set (x ∷ xs) (suc i) v = x ∷ set xs i v

  abbrev pub take : ℕ → List A → List A
  take zero xs = []
  take (suc n) [] = []
  take (suc n) (x ∷ xs) = x ∷ take n xs

  abbrev pub drop : ℕ → List A → List A
  drop zero xs = xs
  drop (suc n) [] = []
  drop (suc n) (x ∷ xs) = drop n xs

  abbrev pub replicate : ℕ → A → List A
  replicate zero a = []
  replicate (suc n) a = a ∷ replicate n a

  pub length-append : (xs ys : List A) → length (xs ++ ys) ≡ length xs + length ys
  length-append [] ys = omega arith
  length-append (x ∷ xs) ys = omega (arith, length-append xs ys)

  pub length-take : (n : ℕ) (xs : List A) → length (take n xs) ≡ min n (length xs)
  length-take zero xs = omega arith
  length-take (suc n) [] = omega arith
  length-take (suc n) (x ∷ xs) = omega (arith, length-take n xs)

  pub length-drop : (n : ℕ) (xs : List A) → length (drop n xs) ≡ length xs - n
  length-drop zero xs = omega arith
  length-drop (suc n) [] = omega arith
  length-drop (suc n) (x ∷ xs) = omega (arith, length-drop n xs)

  pub length-replicate : (n : ℕ) (a : A) → length (replicate n a) ≡ n
  length-replicate zero a = refl
  length-replicate (suc n) a = ap suc (length-replicate n a)

  pub take-append : (xs ys : List A) (n : ℕ) → n ≡ length xs → take n (xs ++ ys) ≡ xs
  take-append [] ys zero h = refl
  take-append [] ys (suc n) h = absurd (omega arith)
  take-append (x ∷ xs) ys zero h = absurd (omega arith)
  take-append (x ∷ xs) ys (suc n) h = ap (◌∷◌ x) (take-append xs ys n (omega arith))

  pub drop-append : (xs ys : List A) (n : ℕ) → n ≡ length xs → drop n (xs ++ ys) ≡ ys
  drop-append [] ys zero h = refl
  drop-append [] ys (suc n) h = absurd (omega arith)
  drop-append (x ∷ xs) ys zero h = absurd (omega arith)
  drop-append (x ∷ xs) ys (suc n) h = drop-append xs ys n (omega arith)

  pub take-append-drop : (n : ℕ) (xs : List A) → take n xs ++ drop n xs ≡ xs
  take-append-drop zero xs = refl
  take-append-drop (suc n) [] = refl
  take-append-drop (suc n) (x ∷ xs) = ap (◌∷◌ x) (take-append-drop n xs)

  pub take-append_le : (n : ℕ) (xs ys : List A) → n ≤ length xs → take n (xs ++ ys) ≡ take n xs
  take-append_le zero xs ys h = refl
  take-append_le (suc n) [] ys h = absurd (omega arith)
  take-append_le (suc n) (x ∷ xs) ys h = ap (◌∷◌ x) (take-append_le n xs ys (omega arith))

  pub take-all : (n : ℕ) (xs : List A) → length xs ≤ n → take n xs ≡ xs
  take-all zero [] h = refl
  take-all zero (x ∷ xs) h = absurd (omega arith)
  take-all (suc n) [] h = refl
  take-all (suc n) (x ∷ xs) h = ap (◌∷◌ x) (take-all n xs (omega arith))

  pub drop-all : (n : ℕ) (xs : List A) → length xs ≤ n → drop n xs ≡ []
  drop-all zero [] h = refl
  drop-all zero (x ∷ xs) h = absurd (omega arith)
  drop-all (suc n) [] h = refl
  drop-all (suc n) (x ∷ xs) h = drop-all n xs (omega arith)

  pub replicate-add : (m n : ℕ) (a : A) → replicate (m + n) a ≡ replicate m a ++ replicate n a
  replicate-add zero n a = let e : zero + n ≡ n = omega arith in rw e refl
  replicate-add (suc m) n a =
      let e : suc m + n ≡ suc (m + n) = omega arith in rw e (ap (◌∷◌ a) (replicate-add m n a))

  pub set-middle :
      (pre post : List A) (x v : A) (i : ℕ)
      → i ≡ length pre
      → set (pre ++ x ∷ post) i v ≡ pre ++ v ∷ post
  set-middle [] post x v zero h = refl
  set-middle [] post x v (suc i) h = absurd (omega arith)
  set-middle (y ∷ pre) post x v zero h = absurd (omega arith)
  set-middle (y ∷ pre) post x v (suc i) h = ap (◌∷◌ y) (set-middle pre post x v i (omega arith))

  -- Go's `copy(dst[at:], src)`: as much of `src` as fits is written over `dst`.
  unfoldable pub copy_at : ℕ → List A → List A → List A
  copy_at at src dst = take at dst ++ (take (length dst - at) src ++ drop (at + length src) dst)

  -- A copy over a middle part of the same length replaces that part.
  pub copy_at-middle :
      (pre mid post src : List A) (at : ℕ)
      → at ≡ length pre
      → length src ≡ length mid
      → copy_at at src (pre ++ (mid ++ post)) ≡ pre ++ (src ++ post)
  unfolding copy_at
  copy_at-middle pre mid post src at h e =
      rw
        (
          take-append pre (mid ++ post) at h,
          take-all (length (pre ++ (mid ++ post)) - at) src
              (omega (arith, length-append pre (mid ++ post), length-append mid post)),
          ← append_assoc pre mid post,
          drop-append (pre ++ mid) post (at + length src) (omega (arith, length-append pre mid)),
        )
        refl

-- A copy over a whole list of the same length replaces it.
pub copy_at-all {ℓ} :
    {A : Type ℓ} (src dst : List A) → length src ≡ length dst → copy_at 0 src dst ≡ src
copy_at-all src dst h =
    subst (λ z. copy_at 0 src z ≡ src) (append-nil dst)
      (copy_at-middle [] dst [] src 0 refl h ∙ append-nil src)

-- Go's `make([]byte, n)`.
abbrev pub zeros : ℕ → List ℕ
zeros n = replicate n 0

pub zeros-add : (m n : ℕ) → zeros (m + n) ≡ zeros m ++ zeros n
zeros-add m n = let z : ℕ = 0 in replicate-add m n z

pub length-zeros : (n : ℕ) → length (zeros n) ≡ n
length-zeros n = let z : ℕ = 0 in length-replicate n z
