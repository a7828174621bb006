-- ===== src/Network/Discovery/Laws.antt =====
-- Network IPv4 Broadcast.go: the directed broadcast of a network, and that no mask is too short.
use Prim.Native.Nat.{bit_and, bit_or}
use peernet_core.Prelude.{
  ℕ, zero, suc, ◌<◌, ◌≡◌, refl, sym, ap, ap₂, ◌∙◌, Bool, true, ◌&&◌, [], ◌∷◌, length, replicate,
  some, ok, ◌==◌, ==_iff, arith,
}
use peernet_core.Ip.{Bytes, AreBytes, bytes_equal, to4}
use peernet_core.Ip.Canonical.{bytes_equal_refl}
use peernet_core.Network.{IpNet, number_and_mask}
use peernet_core.Network.Discovery.{
  mask_bytes, or_else, shorter, contains, set_host_bits, fill_host, ipv4_directed_broadcast,
}

to4_short : (b : Bytes) → length b ≡ 4 → to4 b ≡ some b
unfolding to4
to4_short b h = rw h refl

-- Every value below n, by evaluation.
all_below : ℕ → (ℕ → Bool) → Bool
all_below zero p = true
all_below (suc n) p = p n && all_below n p

all_below_lem : (n : ℕ) (p : ℕ → Bool) (x : ℕ) → all_below n p ≡ true → x < n → p x ≡ true
unfolding all_below
all_below_lem zero p x h lt = absurd (omega arith)
all_below_lem (suc n) p x h lt = ground (arith, all_below_lem n p x)

-- The bits under the mask stay, and all others are one.
abbrev is_host_filled : ℕ → ℕ → Bool
is_host_filled m x =
    (bit_and (set_host_bits x m) m == bit_and x m) && (bit_or (set_host_bits x m) m == 255)

host_table : all_below 256 (λ m. all_below 256 (is_host_filled m)) ≡ true
unfolding all_below
host_table = refl

set_host_bits_lem :
    (x m : ℕ)
    → x < 256
    → m < 256
    → (bit_and (set_host_bits x m) m ≡ bit_and x m) × (bit_or (set_host_bits x m) m ≡ 255)
set_host_bits_lem x m hx hm =
    let row = all_below_lem 256 (λ m. all_below 256 (is_host_filled m)) m host_table hm in
    let cell = all_below_lem 256 (is_host_filled m) x row hx in
    let and_test = bit_and (set_host_bits x m) m == bit_and x m in
    let or_test = bit_or (set_host_bits x m) m == 255 in
    let both : (and_test ≡ true) × (or_test ≡ true) = ground (arith, cell) in
    ((==_iff _ _).0 both.0, (==_iff _ _).0 both.1)

-- `x | m` byte by byte.
abbrev pub or_bytes : Bytes → Bytes → Bytes
or_bytes [] ms = []
or_bytes (x ∷ xs) [] = []
or_bytes (x ∷ xs) (m ∷ ms) = bit_or x m ∷ or_bytes xs ms

-- The address `b` is that of `ip` under the mask, and has ones everywhere else.
pub record IsDirected (ip mask b : Bytes) : Type 0 where
  pub length_same : length b ≡ length ip
  pub network_same : mask_bytes b mask ≡ mask_bytes ip mask
  pub host_ones : or_bytes b mask ≡ replicate (length ip) 255

fill_host_lem :
    (ip mask : Bytes)
    → length ip ≡ length mask
    → AreBytes ip
    → AreBytes mask
    → (b : Bytes) × (fill_host ip mask ≡ ok b) × IsDirected ip mask b
unfolding fill_host mask_bytes
fill_host_lem [] mask e hi hm =
    ([], refl, record { length_same = refl; network_same = refl; host_ones = refl })
fill_host_lem (x ∷ xs) [] e hi hm = absurd (omega (arith, e))
fill_host_lem (x ∷ xs) (m ∷ ms) e hi hm =
    let (b, done, rest) = fill_host_lem xs ms (omega (arith, e)) hi.1 hm.1 in
    let (kept, ones) = set_host_bits_lem x m hi.0 hm.0 in
    (
      set_host_bits x m ∷ b,
      rw done refl,
      record {
        length_same = ap suc rest.length_same;
        network_same = ap₂ ◌∷◌ kept rest.network_same;
        host_ones = ap₂ ◌∷◌ ones rest.host_ones;
      },
    )

-- An address of four bytes with the network's bits under the mask.
contains_lem :
    (n : IpNet) (ip4 b : Bytes)
    → number_and_mask n ≡ some (ip4, n.mask)
    → length b ≡ 4
    → length b ≡ length ip4
    → mask_bytes b n.mask ≡ mask_bytes ip4 n.mask
    → contains n b ≡ true
unfolding contains
contains_lem n ip4 b number short same kept =
    let found : shorter b ≡ b = ap (λ o. or_else o b) (to4_short b short) in
    let equal : bytes_equal (mask_bytes ip4 n.mask) (mask_bytes b n.mask) ≡ true =
      rw kept (bytes_equal_refl (mask_bytes ip4 n.mask)) in
    rw (contains, number) (rw found (ground (arith, same, equal)))

-- `ipv4DirectedBroadcast` of a network whose address is IPv4, of four bytes or sixteen, and whose
-- mask has four bytes: it does not panic, and the result has the network's bits of the address and
-- ones in all others, so the network contains it.
pub ipv4_directed_broadcast-IsDirected :
    (n : IpNet) (ip4 : Bytes)
    → to4 n.ip ≡ some ip4
    → length ip4 ≡ 4
    → length n.mask ≡ 4
    → AreBytes ip4
    → AreBytes n.mask
    → (b : Bytes) × (ipv4_directed_broadcast n ≡ ok (some b))
      × IsDirected ip4 n.mask b
      × (contains n b ≡ true)
unfolding ipv4_directed_broadcast contains number_and_mask to4
ipv4_directed_broadcast-IsDirected n ip4 e four mask4 hi hm =
    let (b, done, rest) = fill_host_lem ip4 n.mask (four ∙ sym mask4) hi hm in
    let short : length b ≡ 4 = rest.length_same ∙ four in
    let number : number_and_mask n ≡ some (ip4, n.mask) = rw (number_and_mask, e, mask4) refl in
    (
      b,
      rw (ipv4_directed_broadcast, e, done) refl,
      rest,
      contains_lem n ip4 b number short (short ∙ sym four) rest.network_same,
    )
