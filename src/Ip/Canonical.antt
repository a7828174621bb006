-- ===== src/Ip/Canonical.antt =====
-- The 16-byte form of an IP, and `IP.Equal`.
use peernet_core.Prelude.{
  ◌≡◌, ◌↔◌, inl, inr, refl, sym, ap, ap₂, ◌∙◌, Bool, true, false, ◌&&◌, [], ◌∷◌, ◌++◌, length, take,
  drop, take-append-drop, ◌==◌, if◌then◌else◌, arith, Bool-cases,
}
use peernet_core.Ip.{Bytes, bytes_equal, v4_in_v6_prefix, ip_equal, is_ipv4, is_ipv6}

pub bytes_equal-eq : (xs ys : Bytes) → bytes_equal xs ys ≡ true → xs ≡ ys
unfolding bytes_equal
bytes_equal-eq [] [] h = refl
bytes_equal-eq [] (y ∷ ys) h = absurd (cc)
bytes_equal-eq (x ∷ xs) [] h = absurd (cc)
bytes_equal-eq (x ∷ xs) (y ∷ ys) h = ground (arith, bytes_equal-eq xs ys)

pub bytes_equal_refl : (xs : Bytes) → bytes_equal xs xs ≡ true
unfolding bytes_equal
bytes_equal_refl [] = refl
bytes_equal_refl (x ∷ xs) = ground (arith, bytes_equal_refl xs)

bytes_equal_comm : (xs ys : Bytes) → bytes_equal xs ys ≡ bytes_equal ys xs
unfolding bytes_equal
bytes_equal_comm [] [] = refl
bytes_equal_comm [] (y ∷ ys) = refl
bytes_equal_comm (x ∷ xs) [] = refl
bytes_equal_comm (x ∷ xs) (y ∷ ys) = ground (arith, bytes_equal_comm xs ys)

&&-true : (a b : Bool) → (a && b) ≡ true → (a ≡ true) × (b ≡ true)
&&-true true true h = (refl, refl)
&&-true true false h = absurd (cc)
&&-true false b h = absurd (cc)

-- The form that `IP.Equal` compares by.
unfoldable pub canonical : Bytes → Bytes
canonical ip = if length ip == 4 then v4_in_v6_prefix ++ ip else ip

canonical_v4 : (a : Bytes) → length a ≡ 4 → canonical a ≡ v4_in_v6_prefix ++ a
unfolding canonical
canonical_v4 a h = rw h refl

canonical_v6 : (a : Bytes) → length a ≡ 16 → canonical a ≡ a
unfolding canonical
canonical_v6 a h = rw h refl

-- A 16-byte address with the prefix in front of the four bytes `a`.
mapped :
    (a b : Bytes)
    → length a ≡ 4
    → length b ≡ 16
    → (bytes_equal (take 12 b) v4_in_v6_prefix && bytes_equal a (drop 12 b)) ≡ true
    → canonical a ≡ canonical b
mapped a b la lb h =
    let (p, q) = &&-true (bytes_equal (take 12 b) v4_in_v6_prefix) (bytes_equal a (drop 12 b)) h in
    let prefix = bytes_equal-eq (take 12 b) v4_in_v6_prefix p in
    let rest = bytes_equal-eq a (drop 12 b) q in
    canonical_v4 a la ∙ ap₂ ◌++◌ (sym prefix) rest ∙ take-append-drop 12 b ∙ sym (canonical_v6 b lb)

canonical_of_ip_equal : (a b : Bytes) → ip_equal a b ≡ true → canonical a ≡ canonical b
unfolding ip_equal
canonical_of_ip_equal a b h = elim (Bool-cases (length a == length b)) [
  | inl same ↦ ap canonical (bytes_equal-eq a b (ground arith))
  | inr differ ↦ elim (Bool-cases ((length a == 4) && (length b == 16))) [
    | inl short ↦ mapped a b (ground arith) (ground arith) (ground arith)
    | inr long ↦
        sym (
          mapped b a (ground arith) (ground arith) (ground (arith, bytes_equal_comm b (drop 12 a))))
  ]
]

pub ip_equal_of_canonical : (a b : Bytes) → canonical a ≡ canonical b → ip_equal a b ≡ true
unfolding ip_equal canonical
ip_equal_of_canonical a b h = ground (
  arith,
  ap length h,
  ap (drop 12) h,
  ap (take 12) h,
  bytes_equal_refl a,
  bytes_equal_refl b,
  bytes_equal_refl v4_in_v6_prefix,
)

-- An address cannot be both an IPv4 and an IPv6 address.
pub is_ipv4-excl : (ip : Bytes) → is_ipv4 ip ≡ true → is_ipv6 ip ≡ false
unfolding is_ipv4 is_ipv6
is_ipv4-excl ip h = ground arith

-- `IP.Equal` is equality of the 16-byte forms.
pub ip_equal_iff : (a b : Bytes) → (ip_equal a b ≡ true) ↔ (canonical a ≡ canonical b)
ip_equal_iff a b = (canonical_of_ip_equal a b, ip_equal_of_canonical a b)
