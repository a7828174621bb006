-- ===== src/Node/Peerlist/Laws.antt =====
-- Peer ID.go: adding to and removing from the peer list.
use peernet_core.Prelude.{
  ℕ, ◌≡◌, ◌≢◌, refl, ap, subst, true, List, [], ◌∷◌, none, some, if◌then◌else◌, arith, Bool-cases,
  Option-cases, inl, inr,
}
use peernet_core.Ip.{Bytes, bytes_equal}
use peernet_core.Ip.Canonical.{bytes_equal-eq}
use peernet_core.Crypto.{Crypto}
use peernet_core.Node.{Node}
use peernet_core.Node.Peerlist.{
  map_get, map_set, map_delete, public_key2_compressed, peerlist_add, peerlist_remove,
  peerlist_lookup,
}

-- `bytes_equal` on equal and on different second arguments.
bytes_equal_right : (i j k : Bytes) → bytes_equal j k ≡ true → bytes_equal i j ≡ bytes_equal i k
bytes_equal_right i j k h = ap (bytes_equal i) (bytes_equal-eq j k h)

pub map_get-map_set :
    {V : Type 0} (k j : Bytes) (q : V) (m : List (Bytes × V))
    → map_get j (map_set k q m) ≡ (if bytes_equal k j then some q else map_get j m)
unfolding map_get map_set
map_get-map_set k j q [] = refl
map_get-map_set k j q ((i, r) ∷ m) = elim (Bool-cases (bytes_equal i k)) [
  | inl hit ↦ rw (hit, bytes_equal-eq i k hit) (ground arith)
  | inr miss ↦ rw miss (ground (arith, map_get-map_set k j q m, bytes_equal_right i k j))
]

pub map_get-map_delete :
    {V : Type 0} (k j : Bytes) (m : List (Bytes × V))
    → map_get j (map_delete k m) ≡ (if bytes_equal k j then none else map_get j m)
unfolding map_get map_delete
map_get-map_delete k j [] = ground arith
map_get-map_delete k j ((i, r) ∷ m) = elim (Bool-cases (bytes_equal i k)) [
  | inl hit ↦ rw (hit, bytes_equal-eq i k hit) (ground (arith, map_get-map_delete k j m))
  | inr miss ↦ rw miss (ground (arith, map_get-map_delete k j m, bytes_equal_right i k j))
]

map_get_known :
    {V : Type 0} (k j : Bytes) (q : V) (m : List (Bytes × V))
    → map_get k m ≡ some q
    → map_get j m ≡ (if bytes_equal k j then some q else map_get j m)
map_get_known k j q m e = elim (Bool-cases (bytes_equal k j)) [
  | inl hit ↦ rw hit (subst (λ z. map_get z m ≡ some q) (bytes_equal-eq k j hit) e)
  | inr miss ↦ rw miss refl
]

module _ (c : Crypto) (n : Node (Crypto.PublicKey c)) where
  open c use {PublicKey}

  -- After `PeerlistAdd` with at least one connection, a lookup of the key finds the peer that the
  -- call returned, and a lookup of any other key finds what it found before.
  pub lookup-add :
      (k j : PublicKey) (latest : ℕ) (more : List ℕ)
      → let (peer, added, n') = peerlist_add c n k (latest ∷ more) in
        (peerlist_lookup c n' j ≡ (
          if bytes_equal (public_key2_compressed c k) (public_key2_compressed c j)
          then peer
          else peerlist_lookup c n j))
        × (peer ≢ none)
  unfolding peerlist_add peerlist_lookup
  lookup-add k j latest more =
      elim (Option-cases (map_get (public_key2_compressed c k) n.peer_list)) [
        | inl new ↦ rw (new, peerlist_add) (map_get-map_set _ _ _ n.peer_list, λ e. cc)
        | inr (q, old) ↦ rw (old, peerlist_add) (map_get_known _ _ q n.peer_list old, λ e. cc)
      ]

  -- After `PeerlistRemove` of a peer, a lookup of its key finds nothing, and a lookup of any other
  -- key finds what it found before.
  pub lookup-remove :
      (q : ℕ) (j : PublicKey)
      → peerlist_lookup c (peerlist_remove c n q) j ≡ (
          if bytes_equal
            (public_key2_compressed c (n.peers q).public_key)
            (public_key2_compressed c j)
          then none
          else peerlist_lookup c n j)
  unfolding peerlist_remove peerlist_lookup
  lookup-remove q j = map_get-map_delete _ _ n.peer_list
