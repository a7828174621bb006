-- ===== src/Node/Peerlist.antt =====
-- Peer ID.go: the peer list.
pub mod Laws
pub mod Refinement
use peernet_core.Prelude.{
  ℕ, zero, suc, ◌+◌, Bool, true, false, List, [], ◌∷◌, ◌++◌, map, take, zeros, copy_at, Option,
  none, some, if◌then◌else◌, length,
}
use peernet_core.Ip.{Bytes, bytes_equal}
use peernet_core.Crypto.{Crypto}
use peernet_core.Connection.{PeerInfo}
use peernet_core.Slice.{nil_slice}
use peernet_core.Node.{Node, update_peer}

-- A Go map from compressed keys.
unfoldable pub map_get : {V : Type 0} → Bytes → List (Bytes × V) → Option V
map_get k [] = none
map_get k ((j, q) ∷ m) = let rest = map_get k m in if bytes_equal j k then some q else rest

unfoldable pub map_set : {V : Type 0} → Bytes → V → List (Bytes × V) → List (Bytes × V)
map_set k q [] = (k, q) ∷ []
map_set k q ((j, r) ∷ m) = if bytes_equal j k then (k, q) ∷ m else (j, r) ∷ map_set k q m

unfoldable pub map_delete : {V : Type 0} → Bytes → List (Bytes × V) → List (Bytes × V)
map_delete k [] = []
map_delete k ((j, q) ∷ m) =
    let rest = map_delete k m in if bytes_equal j k then rest else (j, q) ∷ rest

module _ (c : Crypto) where
  open c use {PublicKey, serialize_compressed}

  -- `publicKey2Compressed`
  unfoldable pub public_key2_compressed : PublicKey → Bytes
  public_key2_compressed k = copy_at 0 (take 33 (serialize_compressed k)) (zeros 33)

  -- `PeerlistAdd`: the peer, whether it was added, and the node.
  unfoldable pub peerlist_add :
      Node PublicKey → PublicKey → List ℕ → Option ℕ × Bool × Node PublicKey
  peerlist_add n k [] = (none, false, n)
  peerlist_add n k (latest ∷ more) = elim (map_get (public_key2_compressed k) n.peer_list) [
    | some q ↦ (some q, false, n)
    | none ↦
        let p : PeerInfo PublicKey = record {
          public_key = k;
          connection_active = record { array = latest ∷ more; len = length (latest ∷ more) };
          connection_inactive = nil_slice;
          connection_latest = some latest;
          stats_packet_sent = 0;
          stats_packet_received = 0;
        } in
        (
          some n.next_peer,
          true,
          record n {
            peers = update_peer n.peers n.next_peer p;
            next_peer = suc n.next_peer;
            peer_list = map_set (public_key2_compressed k) n.next_peer n.peer_list;
          },
        )
  ]

  -- `PeerlistRemove`
  unfoldable pub peerlist_remove : Node PublicKey → ℕ → Node PublicKey
  peerlist_remove n q = record n {
    peer_list = map_delete (public_key2_compressed (n.peers q).public_key) n.peer_list;
  }

  -- `PeerlistGet`, in the list's order; Go's order is any.
  abbrev pub peerlist_get : Node PublicKey → List ℕ
  peerlist_get n = map (λ e. e.1) n.peer_list

  -- `PeerlistLookup`
  unfoldable pub peerlist_lookup : Node PublicKey → PublicKey → Option ℕ
  peerlist_lookup n k = map_get (public_key2_compressed k) n.peer_list

  -- `PeerlistCount`
  unfoldable pub peerlist_count : Node PublicKey → ℕ
  peerlist_count n = length n.peer_list
