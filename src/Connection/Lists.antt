-- ===== src/Connection/Lists.antt =====
-- Connection.go: the searches and removals on a peer's lists, and which connections are equal.
use peernet_core.Prelude.{
  ℕ, zero, suc, ◌<◌, ◌≡◌, ◌↔◌, ap, ◌∙◌, true, false, List, [], ◌∷◌, ◌++◌, length, length-take, take,
  drop, arith, none, some,
}
use peernet_core.Ip.{Bytes}
use peernet_core.Ip.Canonical.{canonical, ip_equal_iff}
use peernet_core.Slice.{Slice, items, IsSlice, remove_at}
use peernet_core.Slice.Laws.{items-remove_at, remove_at-IsSlice}
use peernet_core.Slice.Pointers.{has, erase}
use peernet_core.Connection.{Store, Connection, connection_equal, find_equal}

pub length-items : (s : Slice) → IsSlice s → length (items s) ≡ s.len
length-items s h = omega (arith, length-take s.len s.array)

-- The removal at an index that holds `c`.
pub remove_at-erase :
    (s : Slice) (c n : ℕ)
    → IsSlice s
    → n < length (items s)
    → take n (items s) ++ drop (suc n) (items s) ≡ erase c (items s)
    → IsSlice (remove_at s n) × (items (remove_at s n) ≡ erase c (items s))
remove_at-erase s c n ok inside e =
    let k : n < s.len = omega (arith, length-items s ok) in
    (remove_at-IsSlice s n ok k, items-remove_at s n ok k ∙ e)

module _ (local_ip : ℕ → Bytes) where
  -- What `Connection.Equal` compares: the remote and the local IP.
  abbrev pub endpoint : Connection → Bytes × Bytes
  endpoint c = (canonical c.address.ip, canonical (local_ip c.network))

  pub connection_equal_iff :
      (a b : Connection) → (connection_equal local_ip a b ≡ true) ↔ (endpoint a ≡ endpoint b)
  unfolding connection_equal
  connection_equal_iff a b = (
    λ e. ground (
      arith,
      ip_equal_iff a.address.ip b.address.ip,
      ip_equal_iff (local_ip a.network) (local_ip b.network),
    ),
    λ e. ground (
      arith,
      ip_equal_iff a.address.ip b.address.ip,
      ip_equal_iff (local_ip a.network) (local_ip b.network),
      ap (λ (p : Bytes × Bytes). p.0) e,
      ap (λ (p : Bytes × Bytes). p.1) e,
    ),
  )

  pub find_equal-none :
      (h : Store) (incoming : Connection) (d : ℕ) (xs : List ℕ)
      → find_equal local_ip h incoming xs ≡ none
      → has d xs ≡ true
      → connection_equal local_ip (h d) incoming ≡ false
  unfolding find_equal
  find_equal-none h incoming d [] e there = absurd (cc)
  find_equal-none h incoming d (x ∷ xs) e there = ground (arith, find_equal-none h incoming d xs)

  pub find_equal-found :
      (h : Store) (incoming : Connection) (n c : ℕ) (xs : List ℕ)
      → find_equal local_ip h incoming xs ≡ some (n, c)
      → (n < length xs)
        × (has c xs ≡ true)
        × (connection_equal local_ip (h c) incoming ≡ true)
        × (take n xs ++ drop (suc n) xs ≡ erase c xs)
  unfolding find_equal erase
  find_equal-found h incoming n c [] e = absurd (cc)
  find_equal-found h incoming zero c (x ∷ xs) e = ground arith
  find_equal-found h incoming (suc n) c (x ∷ xs) e =
      ground (arith, find_equal-found h incoming n c xs)
