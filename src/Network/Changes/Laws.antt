-- ===== src/Network/Changes/Laws.antt =====
-- Network Detection.go: what is left of the lists after a removal.
use peernet_core.Prelude.{
  ℕ, zero, suc, ◌+◌, ◌-◌, ◌≤◌, ◌<◌, ◌≡◌, ◌≢◌, refl, sym, ap, ap₂, ◌∙◌, Bool, true, false, List, [],
  ◌∷◌, ◌++◌, take, drop, some, arith, Option-cases, inl, inr, get_elem?,
}
use peernet_core.Slice.{IsSlice, Slice, items, remove_at}
use peernet_core.Slice.Laws.{items-remove_at}
use peernet_core.Slice.Shift.{get_elem?-remove_at}
use peernet_core.Network.{Network, Adapters, terminate, remove_listen_address}
use peernet_core.Network.Changes.{remove_loop}

terminate-ne : (a : Adapters) (k d : ℕ) → d ≢ k → (terminate k a).networks d ≡ a.networks d
unfolding terminate remove_listen_address
terminate-ne a k d ne = ground arith

module _ (test : Network → Bool) where
  -- When both networks of a list with two are to be removed, both are terminated, but the second
  -- stays in the list.
  pub remove_loop_two :
      (a : Adapters) (i j : ℕ) (spare : List ℕ)
      → i ≢ j
      → test (a.networks i) ≡ true
      → test (a.networks j) ≡ true
      → let (a', s) = remove_loop test 0 2 a (record { array = i ∷ j ∷ spare; len = 2 }) in
        (a' ≡ terminate j (terminate i a)) × (items s ≡ j ∷ [])
  unfolding remove_loop remove_at
  remove_loop_two a i j spare ne first second =
      rw (first, remove_loop, terminate-ne a i j (λ e. ne (sym e)), second) (refl, refl)

  -- Elements that are not to be removed.
  abbrev Kept : Adapters → Slice → ℕ → ℕ → Type 0
  Kept a s n count =
      (i k : ℕ) → n ≤ i → i < n + count → get_elem? s.array i ≡ some k → test (a.networks k) ≡ false

  loop-Kept :
      (n count more : ℕ) (a : Adapters) (s : Slice)
      → Kept a s n count
      → remove_loop test n (count + more) a s ≡ remove_loop test (n + count) more a s
  unfolding remove_loop
  loop-Kept n zero more a s kept =
      ap₂ (λ (i j : ℕ). remove_loop test i j a s) (omega arith) (omega arith)
  loop-Kept n (suc count) more a s kept =
      let rest =
        loop-Kept (suc n) count more a s (λ i k lo hi. kept i k (omega arith) (omega arith))
        ∙ ap (λ (i : ℕ). remove_loop test i more a s) (omega arith) in
      let step : suc count + more ≡ suc (count + more) = omega arith in
      elim (Option-cases (get_elem? s.array n)) [
        | inl e ↦ rw (step, e, remove_loop) rest
        | inr (k, e) ↦ rw (step, e, remove_loop, kept n k (omega arith) (omega arith) e) rest
      ]

  loop_found :
      (n k count : ℕ) (a : Adapters) (s : Slice)
      → get_elem? s.array n ≡ some k
      → test (a.networks k) ≡ true
      → remove_loop test n (suc count) a s
        ≡ remove_loop test (suc n) count (terminate k a) (remove_at s n)
  unfolding remove_loop
  loop_found n k count a s e found = rw (e, remove_loop, found) refl

  -- When exactly one network of a list is to be removed, it is terminated and taken out, and the
  -- others stay, in their order: the list is that without the place n, for the only n at which the
  -- array has a network that the test finds.
  pub remove_loop_one :
      (a : Adapters) (s : Slice) (n k : ℕ)
      → IsSlice s
      → n < s.len
      → get_elem? s.array n ≡ some k
      → test (a.networks k) ≡ true
      → ((i d : ℕ) → i ≢ n → i < s.len → get_elem? s.array i ≡ some d → test (a.networks d) ≡ false)
      → (remove_loop test 0 s.len a s ≡ (terminate k a, remove_at s n))
        × (items (remove_at s n) ≡ take n (items s) ++ drop (suc n) (items s))
  unfolding remove_loop
  remove_loop_one a s n k sound inside at found others =
      let count = s.len - suc n in
      let split : s.len ≡ n + suc count = omega arith in
      let start : 0 + n ≡ n = omega arith in
      let whole : count ≡ count + 0 = omega arith in
      let behind : Kept (terminate k a) (remove_at s n) (suc n) count = λ i d lo hi e.
        let (j, after, below, same) = get_elem?-remove_at s n i sound (omega arith) (omega arith) in
        let kept = others j d (omega arith) below (sym same ∙ e) in
        ap test
          (terminate-ne a k d (λ equal. absurd (cc (ap (λ (z : ℕ). test (a.networks z)) equal))))
        ∙ kept in
      (
        ap (λ (m : ℕ). remove_loop test 0 m a s) split
            ∙ loop-Kept 0 n (suc count) a s
                (λ i d lo hi e. others i d (omega arith) (omega arith) e)
            ∙ ap (λ (m : ℕ). remove_loop test m (suc count) a s) start
            ∙ loop_found n k count a s at found
            ∙ ap (λ (m : ℕ). remove_loop test (suc n) m (terminate k a) (remove_at s n)) whole
            ∙ loop-Kept (suc n) count 0 (terminate k a) (remove_at s n) behind,
        items-remove_at s n sound inside,
      )
