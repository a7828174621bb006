-- ===== src/Packet/Garbage.antt =====
-- Packet Encoding.go, `packetGarbage`: which packet lengths get garbage, and which make the
-- function panic.
use peernet_core.Prelude.{
  ℕ, ◌+◌, ◌-◌, ◌≡◌, ◌≤◌, ◌<◌, ◌⊎◌, inl, inr, refl, List, [], arith, length, none, some, ok, panic,
  Option-cases, if◌then◌else◌, ltb,
}
use peernet_core.Prelude.Int.{pos, negsuc}
use peernet_core.Crypto.{Rand}
use peernet_core.Packet.{garbage_bound, packet_garbage, read_garbage}

-- The lengths that come close to 508 or 1472 from below.
abbrev pub IsNearLimit : ℕ → Type 0
IsNearLimit n = ((489 ≤ n) × (n < 508)) ⊎ ((1453 ≤ n) × (n < 1472))

-- The lengths that get no garbage.
abbrev pub IsAligned : ℕ → Type 0
IsAligned n = (n ≡ 508) ⊎ (n ≡ 1472)

abbrev pub IsFree : ℕ → Type 0
IsFree n = (n < 489) ⊎ (((508 < n) × (n < 1453)) ⊎ (1472 < n))

pub length-cases : (n : ℕ) → IsNearLimit n ⊎ (IsAligned n ⊎ IsFree n)
length-cases n = grind arith

pub garbage_bound_near :
    (n : ℕ)
    → IsNearLimit n
    → garbage_bound n ≡ some (negsuc (if ltb n 508 then 507 - n else 1471 - n))
unfolding garbage_bound
garbage_bound_near n (inl h) = ground arith
garbage_bound_near n (inr h) = ground arith

pub garbage_bound_aligned : (n : ℕ) → IsAligned n → garbage_bound n ≡ none
unfolding garbage_bound
garbage_bound_aligned n (inl h) = ground arith
garbage_bound_aligned n (inr h) = ground arith

pub garbage_bound_free : (n : ℕ) → IsFree n → garbage_bound n ≡ some (pos 20)
unfolding garbage_bound
garbage_bound_free n (inl h) = ground arith
garbage_bound_free n (inr (inl h)) = ground arith
garbage_bound_free n (inr (inr h)) = ground arith

module _ (r : Rand) (n : ℕ) where
  pub packet_garbage_near : IsNearLimit n → packet_garbage r n ≡ panic
  unfolding packet_garbage
  packet_garbage_near h = rw (garbage_bound_near n h, packet_garbage) refl

  pub packet_garbage_aligned : IsAligned n → packet_garbage r n ≡ ok []
  unfolding packet_garbage
  packet_garbage_aligned h = rw (garbage_bound_aligned n h, packet_garbage) refl

  length-read_garbage : (m : ℕ) → length (read_garbage r m) ≤ m
  length-read_garbage m = elim (Option-cases (r.read m)) [
    | inl e ↦ rw (e, read_garbage) (omega arith)
    | inr (b, e) ↦ rw (e, read_garbage) (omega (arith, r.length-read m b e))
  ]

  pub packet_garbage_free : IsFree n → (g : List ℕ) × (packet_garbage r n ≡ ok g) × (length g < 20)
  unfolding packet_garbage
  packet_garbage_free h = (
    read_garbage r (r.below 20),
    rw (garbage_bound_free n h, packet_garbage) refl,
    omega (arith, length-read_garbage (r.below 20), r.below-lt 19),
  )

  -- What a call returns: the garbage is short, and a packet below a limit stays below it.
  abbrev pub IsFitting : List ℕ → Type 0
  IsFitting g = (length g < 20) × (n ≤ 508 → n + length g ≤ 508) × (n ≤ 1472 → n + length g ≤ 1472)

  pub packet_garbage-cases :
      (IsNearLimit n × (packet_garbage r n ≡ panic))
      ⊎ ((¬ IsNearLimit n) × ((g : List ℕ) × (packet_garbage r n ≡ ok g) × IsFitting g))
  packet_garbage-cases = elim (length-cases n) [
    | inl near ↦ inl (near, packet_garbage_near near)
    | inr (inl aligned) ↦ inr (
      (λ h. omega arith),
      ([], packet_garbage_aligned aligned, (omega arith, (λ h. omega arith), (λ h. omega arith))),
    )
    | inr (inr free) ↦
        let (g, e, short) = packet_garbage_free free in
        inr ((λ h. omega arith), (g, e, (short, (λ h. omega arith), (λ h. omega arith))))
  ]
