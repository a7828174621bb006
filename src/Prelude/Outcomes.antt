-- ===== src/Prelude/Outcomes.antt =====
-- What a Go function that can fail comes back with: a value, an error or a run-time panic.
use Prim.Native.Nat.{ℕ, ◌-◌, ◌≤◌, ◌<◌}
use Prim.Native.String.{String}
use mathlib.Core.Path.{◌≡◌, refl}
use mathlib.Core.Logic.{◌⊎◌, inl, inr}
use native.Mathlib.Omega.{arith}
use mathlib.Core.Option.{Option, none, some}
use mathlib.Core.Bool.{◌&&◌}
use mathlib.Core.List.{List}
use peernet_core.Prelude.Tests.{if◌then◌else◌, leb, ltb, le→leb}
use peernet_core.Prelude.Lists.{length, take, drop, get_elem?}

-- An error is its text, which is all that the program reads of one.
pub data Outcome {ℓ} (A : Type ℓ) : Type ℓ where
  ok : A → Outcome A
  err : String → Outcome A
  panic : Outcome A

infixl 5 ◌>>=◌
abbrev pub ◌>>=◌ {ℓ κ} : {A : Type ℓ} {B : Type κ} → Outcome A → (A → Outcome B) → Outcome B
ok a >>= f = f a
err e >>= f = err e
panic >>= f = panic

-- A call that returns a value or an error.
abbrev pub or_fail {ℓ} : {A : Type ℓ} → Option A → String → Outcome A
or_fail none e = err e
or_fail (some a) e = ok a

-- `s[lo:hi]`, with the run-time check of the bounds. The capacity of `s` is its length.
unfoldable pub slice {ℓ} : {A : Type ℓ} → List A → ℕ → ℕ → Outcome (List A)
slice s lo hi = if leb lo hi && leb hi (length s) then ok (take (hi - lo) (drop lo s)) else panic

-- `s[i]`
abbrev pub index {ℓ} : {A : Type ℓ} → List A → ℕ → Outcome A
index s i = elim (get_elem? s i) [ none ↦ panic | some a ↦ ok a ]

-- `n - m` as a length: a negative one makes the slice or the `make` that takes it panic.
unfoldable pub minus : ℕ → ℕ → Outcome ℕ
minus n m = if ltb n m then panic else ok (n - m)

pub slice_ok {ℓ} :
    {A : Type ℓ} (s : List A) (lo hi : ℕ)
    → lo ≤ hi
    → hi ≤ length s
    → slice s lo hi ≡ ok (take (hi - lo) (drop lo s))
unfolding slice
slice_ok s lo hi h k = rw (le→leb lo hi h, le→leb hi (length s) k) refl

pub slice_panic {ℓ} : {A : Type ℓ} (s : List A) (lo hi : ℕ) → length s < hi → slice s lo hi ≡ panic
unfolding slice
slice_panic s lo hi h = ground arith

pub minus_ok : (n m : ℕ) → m ≤ n → minus n m ≡ ok (n - m)
unfolding minus
minus_ok n m h = ground arith

pub minus_panic : (n m : ℕ) → n < m → minus n m ≡ panic
unfolding minus
minus_panic n m h = ground arith

pub Outcome-cases {ℓ} :
    {A : Type ℓ} (o : Outcome A)
    → (o ≡ panic) ⊎ ((e : String) × (o ≡ err e)) ⊎ ((a : A) × (o ≡ ok a))
Outcome-cases panic = inl refl
Outcome-cases (err e) = inr (inl (e, refl))
Outcome-cases (ok a) = inr (inr (a, refl))
