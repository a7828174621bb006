-- ===== src/Text/Address/Length.antt =====
-- net: what `ParseIP` reads has sixteen bytes.
use peernet_core.Prelude.{
  ℕ, zero, suc, ◌+◌, ◌-◌, ◌*◌, ◌≤◌, ◌<◌, ◌≡◌, refl, ap, ◌||◌, not, [], ◌∷◌, ◌++◌, length, take,
  drop, zeros, length-append, length-take, length-drop, length-zeros, Option, none, some, ltb, ◌==◌,
  arith, Bool-cases, ltb→lt, is_some, ◌/◌, ◌%◌, ◌&&◌, inl, inr, if-both,
}
use peernet_core.Ip.{Bytes, AreBytes, v4_in_v6_prefix}
use peernet_core.Text.{Text}
use peernet_core.Text.Address.{
  Read, Step, stop, go_on, dtoi, xtoi, cons_byte, in_v6, append_ipv4, dotted, parse_ipv4,
  trailing_ipv4, after_group, after_ellipsis, read_group, starts_with_dot, groups, expand,
  parse_ipv6, parse_kind,
}

bytes-append : (a b : Bytes) → AreBytes a → AreBytes b → AreBytes (a ++ b)
bytes-append [] b ha hb = hb
bytes-append (x ∷ a) b ha hb = (ha.0, bytes-append a b ha.1 hb)

bytes-take : (n : ℕ) (a : Bytes) → AreBytes a → AreBytes (take n a)
bytes-take zero a h = tt
bytes-take (suc n) [] h = tt
bytes-take (suc n) (x ∷ a) h = (h.0, bytes-take n a h.1)

bytes-drop : (n : ℕ) (a : Bytes) → AreBytes a → AreBytes (drop n a)
bytes-drop zero a h = h
bytes-drop (suc n) [] h = tt
bytes-drop (suc n) (x ∷ a) h = bytes-drop n a h.1

pub bytes-zeros : (n : ℕ) → AreBytes (zeros n)
bytes-zeros zero = tt
bytes-zeros (suc n) = (omega arith, bytes-zeros n)

-- What a reader that may fail returns if it does not.
abbrev pub Yields {ℓ} : {A : Type ℓ} → (A → Type 0) → Option A → Type 0
Yields P none = Unit {0}
Yields P (some a) = P a

-- An address of n bytes.
abbrev pub HasBytes : ℕ → Bytes → Type 0
HasBytes n bs = (length bs ≡ n) × AreBytes bs

cons_byte-HasBytes :
    (count n : ℕ) (r : Option Bytes)
    → n < 256
    → Yields (HasBytes count) r
    → Yields (HasBytes (suc count)) (cons_byte n r)
cons_byte-HasBytes count n none lt h = tt
cons_byte-HasBytes count n (some bs) lt (len, h) = (ap suc len, (lt, h))

dotted-HasBytes :
    (count : ℕ) (r : Option (ℕ × Text)) → Yields (HasBytes (suc count)) (dotted count r)
unfolding dotted
dotted-HasBytes count none = tt
dotted-HasBytes zero (some (n, [])) = elim (Bool-cases (ltb 255 n)) [
  | inl large ↦ rw large tt
  | inr small ↦ rw small (refl, (ground arith, tt))
]
dotted-HasBytes zero (some (n, x ∷ s)) = tt
dotted-HasBytes (suc count) (some (n, [])) = tt
dotted-HasBytes (suc count) (some (n, x ∷ s)) =
    let rest = dotted-HasBytes count (dtoi s) in
    elim (Bool-cases (ltb 255 n)) [
      | inl large ↦ rw large tt
      | inr small ↦ rw small (
          if-both (Yields (HasBytes (suc (suc count)))) (x == b'.')
            (cons_byte-HasBytes (suc count) n (dotted count (dtoi s)) (ground (arith, small)) rest)
            tt)
    ]

-- What `parseIPv6` has read fits sixteen bytes.
abbrev Fits : Read → Type 0
Fits (acc, ellipsis) = (length acc ≤ 16) × AreBytes acc

append_ipv4-Fits :
    (acc : Bytes) (ellipsis : Option ℕ) (r : Option Bytes)
    → length acc + 4 ≤ 16
    → AreBytes acc
    → Yields (HasBytes 4) r
    → Yields Fits (append_ipv4 acc ellipsis r)
append_ipv4-Fits acc ellipsis none room h k = tt
append_ipv4-Fits acc ellipsis (some ip4) room h (four, k) =
    (omega (arith, room, four, length-append acc ip4), bytes-append acc ip4 h k)

trailing_ipv4-Fits :
    (acc : Bytes) (ellipsis : Option ℕ) (s : Text)
    → AreBytes acc
    → Yields Fits (trailing_ipv4 acc ellipsis s)
unfolding trailing_ipv4 parse_ipv4
trailing_ipv4-Fits acc ellipsis s h =
    let test = (not (is_some ellipsis) && not (length acc == 12)) || ltb 16 (length acc + 4) in
    elim (Bool-cases test) [
      | inl bad ↦ rw bad tt
      | inr good ↦ rw good (
          append_ipv4-Fits acc ellipsis (dotted 3 (dtoi s)) (ground (arith, good)) h
            (dotted-HasBytes 3 (dtoi s)))
    ]

-- A round that ends with what fits, or leaves room for the groups to come.
abbrev StepFits : ℕ → Step → Type 0
StepFits more (stop r) = Yields Fits r
StepFits more (go_on acc ellipsis s) = (length acc + 2 * more ≤ 16) × AreBytes acc

after_ellipsis-StepFits :
    (more : ℕ) (acc : Bytes) (ellipsis : Option ℕ) (s : Text)
    → length acc + 2 * more ≤ 16
    → AreBytes acc
    → StepFits more (after_ellipsis acc ellipsis s)
unfolding after_ellipsis
after_ellipsis-StepFits more acc (some _) s room h = tt
after_ellipsis-StepFits more acc none [] room h = (omega (arith, room), h)
after_ellipsis-StepFits more acc none (x ∷ s) room h = (room, h)

after_group-StepFits :
    (more : ℕ) (acc : Bytes) (ellipsis : Option ℕ) (s : Text)
    → length acc + 2 * more ≤ 16
    → AreBytes acc
    → StepFits more (after_group acc ellipsis s)
unfolding after_group
after_group-StepFits more acc ellipsis [] room h = (omega (arith, room), h)
after_group-StepFits more acc ellipsis (x ∷ []) room h = tt
after_group-StepFits more acc ellipsis (x ∷ y ∷ s) room h =
    if-both (StepFits more) (not (x == b':')) tt (
      if-both (StepFits more) (y == b':') (after_ellipsis-StepFits more acc ellipsis s room h)
        (room, h))

read_group-StepFits :
    (more : ℕ) (acc : Bytes) (ellipsis : Option ℕ) (s : Text) (r : Option (ℕ × Text))
    → length acc + 2 * suc more ≤ 16
    → AreBytes acc
    → StepFits more (read_group acc ellipsis s r)
unfolding read_group
read_group-StepFits more acc ellipsis s none room h = tt
read_group-StepFits more acc ellipsis s (some (n, rest)) room h = elim (Bool-cases (ltb 0xffff n)) [
  | inl large ↦ rw large tt
  | inr small ↦
      let le : n ≤ 0xffff = ground (arith, small) in
      let two = n / 256 ∷ n % 256 ∷ [] in
      rw small (
        if-both (StepFits more) (starts_with_dot rest) (trailing_ipv4-Fits acc ellipsis s h) (
          after_group-StepFits more (acc ++ two) ellipsis rest
            (omega (arith, room, length-append acc two))
            (bytes-append acc two h (omega (arith, le), (omega arith, tt)))))
]

groups-Fits :
    (more : ℕ) (acc : Bytes) (ellipsis : Option ℕ) (s : Text)
    → length acc + 2 * more ≤ 16
    → AreBytes acc
    → Yields Fits (groups more acc ellipsis s)
unfolding groups
groups-Fits zero acc ellipsis [] room h = (omega (arith, room), h)
groups-Fits zero acc ellipsis (x ∷ s) room h = tt
groups-Fits (suc more) acc ellipsis s room h =
    go (λ acc' ellipsis' next room' h'. groups-Fits more acc' ellipsis' next room' h')
      (read_group acc ellipsis s (xtoi s)) (read_group-StepFits more acc ellipsis s (xtoi s) room h)
  where
    go :
        ((acc' : Bytes) (ellipsis' : Option ℕ) (next : Text)
          → length acc' + 2 * more ≤ 16
          → AreBytes acc'
          → Yields Fits (groups more acc' ellipsis' next))
        → (step : Step) → StepFits more step
        → Yields Fits
            (elim step [ stop r ↦ r | go_on acc' ellipsis' next ↦ groups more acc' ellipsis' next ])
    go rest (stop r) fits = fits
    go rest (go_on acc' ellipsis' next) (room', h') = rest acc' ellipsis' next room' h'

expand-HasBytes : (r : Option Read) → Yields Fits r → Yields (HasBytes 16) (expand r)
unfolding expand
expand-HasBytes none h = tt
expand-HasBytes (some (acc, none)) (fits, h) = elim (Bool-cases (ltb (length acc) 16)) [
  | inl short ↦ rw short tt
  | inr full ↦ rw full (ground (arith, full, fits), h)
]
expand-HasBytes (some (acc, some at)) (fits, h) = elim (Bool-cases (ltb (length acc) 16)) [
  | inl short ↦
      let lt = ltb→lt (length acc) 16 short in
      let gap = zeros (16 - length acc) in
      rw short (
        omega (
          arith,
          lt,
          length-append (take at acc) (gap ++ drop at acc),
          length-append gap (drop at acc),
          length-zeros (16 - length acc),
          length-take at acc,
          length-drop at acc,
        ),
        bytes-append (take at acc) (gap ++ drop at acc) (bytes-take at acc h)
            (bytes-append gap (drop at acc) (bytes-zeros (16 - length acc)) (bytes-drop at acc h)),
      )
  | inr full ↦ rw full tt
]

parse_ipv6-HasBytes : (s : Text) → Yields (HasBytes 16) (parse_ipv6 s)
unfolding parse_ipv6
parse_ipv6-HasBytes [] = expand-HasBytes _ (groups-Fits 8 [] none [] (omega arith) tt)
parse_ipv6-HasBytes (x ∷ []) = expand-HasBytes _ (groups-Fits 8 [] none (x ∷ []) (omega arith) tt)
parse_ipv6-HasBytes (x ∷ y ∷ s) =
    if-both (Yields (HasBytes 16)) ((x == b':') && (y == b':')) (go s)
      (expand-HasBytes _ (groups-Fits 8 [] none (x ∷ y ∷ s) (omega arith) tt))
  where
    go :
        (s : Text)
        → Yields
            (HasBytes 16)
            (elim s [ [] ↦ some (zeros 16) | z ∷ t ↦ expand (groups 8 [] (some 0) (z ∷ t)) ])
    go [] = (refl, bytes-zeros 16)
    go (z ∷ t) = expand-HasBytes _ (groups-Fits 8 [] (some 0) (z ∷ t) (omega arith) tt)

in_v6-HasBytes : (r : Option Bytes) → Yields (HasBytes 4) r → Yields (HasBytes 16) (in_v6 r)
in_v6-HasBytes none h = tt
in_v6-HasBytes (some ip4) (four, h) = (
  omega (arith, four, length-append v4_in_v6_prefix ip4),
  bytes-append v4_in_v6_prefix ip4
      (bytes-append (zeros 10) (255 ∷ 255 ∷ []) (bytes-zeros 10) (omega arith, (omega arith, tt)))
      h,
)

pub parse_kind-HasBytes : (s t : Text) → Yields (HasBytes 16) (parse_kind s t)
unfolding parse_kind parse_ipv4
parse_kind-HasBytes s [] = tt
parse_kind-HasBytes s (x ∷ t) =
    if-both (Yields (HasBytes 16)) (x == b'.') (in_v6-HasBytes _ (dotted-HasBytes 3 (dtoi s)))
      (if-both (Yields (HasBytes 16)) (x == b':') (parse_ipv6-HasBytes s) (parse_kind-HasBytes s t))
