-- ===== src/Network/Laws.antt =====
-- Network.go and Network Init.go: termination, and the set of listening addresses.
use peernet_core.Prelude.{
  ℕ, ◌≡◌, refl, sym, ap, ap₂, ◌∙◌, true, false, List, [], ◌∷◌, some, if◌then◌else◌, ◌==◌, ==_iff,
  arith, Bool-cases, inl, inr,
}
use peernet_core.Ip.{Bytes}
use peernet_core.Ip.Canonical.{bytes_equal-eq}
use peernet_core.Connection.{UdpAddr}
use peernet_core.Network.{
  Adapters, ListenKey, listen_key, key_equal, delete_key, has_key, remove_listen_address,
  is_address_self, terminate,
}

key_equal-eq : (a b : ListenKey) → key_equal a b ≡ true → a ≡ b
key_equal-eq (a, p) (b, q) h = elim (Bool-cases (p == q)) [
  | inl port ↦
      ap₂ (λ (x : Bytes) (y : ℕ). (x, y)) (bytes_equal-eq a b (sym (rw port refl) ∙ h))
        ((==_iff p q).0 port)
  | inr other ↦ absurd (ground (arith, other, h))
]

has_key-delete_key :
    (k j : ListenKey) (xs : List ListenKey)
    → has_key j (delete_key k xs) ≡ (if key_equal k j then false else has_key j xs)
unfolding has_key delete_key
has_key-delete_key k j [] = ground arith
has_key-delete_key k j (x ∷ xs) = elim (Bool-cases (key_equal x k)) [
  | inl hit ↦ rw (hit, key_equal-eq x k hit) (ground (arith, has_key-delete_key k j xs))
  | inr miss ↦ elim (Bool-cases (key_equal x j)) [
    | inl there ↦ elim (Bool-cases (key_equal k j)) [
      | inl same ↦ absurd (cc (ap (key_equal x) (key_equal-eq k j same)))
      | inr other ↦ rw (miss, there, other) refl
    ]
    | inr away ↦ rw (miss, away) (has_key-delete_key k j xs)
  ]
]

module _ (a : Adapters) (k : ℕ) where
  -- The address of a network that is terminated is no longer one of the node's own; every other
  -- address is as before.
  pub is_address_self-terminate :
      (addr : UdpAddr)
      → (a.networks k).is_terminated ≡ false
      → is_address_self (some addr) (terminate k a) ≡ (
          if key_equal (listen_key (a.networks k).address) (listen_key addr)
          then false
          else is_address_self (some addr) a)
  unfolding terminate remove_listen_address is_address_self
  is_address_self-terminate addr running =
      rw (running, terminate) (has_key-delete_key _ _ a.ips_listen)
