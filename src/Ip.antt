-- ===== src/Ip.antt =====
-- The part of Go's `net.IP` that the program uses, and the tests of Network Detection.go on it.
-- An address is its bytes: 4 or 16 of them, or none for `nil`.
pub mod Canonical
use Prim.Native.Nat.{bit_and}
use peernet_core.Prelude.{
  ℕ, ◌<◌, ◌≡◌, Bool, true, false, ◌&&◌, not, List, [], ◌∷◌, ◌++◌, length, take, drop, zeros, Option,
  none, some, ◌==◌, if◌then◌else◌,
}

abbrev pub Bytes : Type 0
Bytes = List ℕ

abbrev pub AreBytes : Bytes → Type 0
AreBytes [] = Unit {0}
AreBytes (x ∷ xs) = (x < 256) × AreBytes xs

-- `bytes.Equal`
unfoldable pub bytes_equal : Bytes → Bytes → Bool
bytes_equal [] [] = true
bytes_equal [] (y ∷ ys) = false
bytes_equal (x ∷ xs) [] = false
bytes_equal (x ∷ xs) (y ∷ ys) = (x == y) && bytes_equal xs ys

-- The prefix of an IPv4 address in IPv6 form.
abbrev pub v4_in_v6_prefix : Bytes
v4_in_v6_prefix = zeros 10 ++ 255 ∷ 255 ∷ []

-- `IP.To4` and `IP.To16`
unfoldable pub to4 : Bytes → Option Bytes
to4 ip =
    if length ip == 4
    then some ip
    else if (length ip == 16) && bytes_equal (take 12 ip) v4_in_v6_prefix
    then some (drop 12 ip)
    else none

unfoldable pub to16 : Bytes → Option Bytes
to16 ip =
    if length ip == 4
    then some (v4_in_v6_prefix ++ ip)
    else if length ip == 16
    then some ip
    else none

-- `IP.Equal`: an IPv4 address and its IPv6 form are the same.
unfoldable pub ip_equal : Bytes → Bytes → Bool
ip_equal ip x =
    if length ip == length x
    then bytes_equal ip x
    else if (length ip == 4) && (length x == 16)
    then bytes_equal (take 12 x) v4_in_v6_prefix && bytes_equal ip (drop 12 x)
    else if (length ip == 16) && (length x == 4)
    then bytes_equal (take 12 ip) v4_in_v6_prefix && bytes_equal (drop 12 ip) x
    else false

-- `ip[i]` where the length was checked.
abbrev byte_at : Bytes → ℕ → ℕ
byte_at ip i = elim (drop i ip) [ [] ↦ 0 | b ∷ _ ↦ b ]

-- `IP.IsLinkLocalUnicast` and `IP.IsLoopback`
unfoldable pub is_link_local_unicast : Bytes → Bool
is_link_local_unicast ip = elim (to4 ip) [
  | some ip4 ↦ (byte_at ip4 0 == 169) && (byte_at ip4 1 == 254)
  | none ↦ (length ip == 16) && ((byte_at ip 0 == 254) && (bit_and (byte_at ip 1) 0xc0 == 0x80))
]

unfoldable pub is_loopback : Bytes → Bool
is_loopback ip = elim (to4 ip) [
  | some ip4 ↦ byte_at ip4 0 == 127
  | none ↦ ip_equal ip (zeros 15 ++ 1 ∷ [])
]

-- Network Detection.go, `IsIPv4` and `IsIPv6`
unfoldable pub is_ipv4 : Bytes → Bool
is_ipv4 ip = elim (to4 ip) [ some _ ↦ true | none ↦ false ]

unfoldable pub is_ipv6 : Bytes → Bool
is_ipv6 ip = elim (to4 ip) [
  | some _ ↦ false
  | none ↦ elim (to16 ip) [ some _ ↦ true | none ↦ false ]
]
