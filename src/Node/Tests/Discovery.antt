-- ===== src/Node/Tests/Discovery.antt =====
-- The discovery messages of the node of Tests.
use peernet_core.Prelude.{
  length, ℕ, ◌≡◌, refl, List, [], ◌∷◌, map, none, some, Option, replicate, ◌++◌, ok, copy_at,
}
use peernet_core.Fixtures.{toy_crypto, toy_rand}
use peernet_core.Packet.{packet_encrypt, packet_garbage, fill, nonce_of}
use peernet_core.Node.{Node}
use peernet_core.Node.Commands.{plain, command_announcement}
use peernet_core.Node.Discovery.{broadcast_ipv4_send}
use peernet_core.Node.Discovery.Laws.{to_address, broadcast_ipv4_send_lem}
use peernet_core.Node.Tests.{world, node}

-- A network with two broadcast addresses.
abbrev broadcaster : Node ℕ
broadcaster = record node {
  adapters = record node.adapters {
    networks = λ k. record (node.adapters.networks k) {
      broadcast_ipv4 = (255 ∷ 255 ∷ 255 ∷ 255 ∷ []) ∷ (10 ∷ 0 ∷ 0 ∷ 255 ∷ []) ∷ [];
    };
  };
}

-- An announcement from key 1 to key 9.
abbrev discovery : List ℕ
discovery = 4 ∷ 3 ∷ 2 ∷ 1 ∷ replicate 7 255 ++ 254 ∷ replicate 64 255

discovery_made : packet_encrypt toy_crypto toy_rand 1 9 (plain command_announcement) ≡ ok discovery
unfolding packet_encrypt packet_garbage fill nonce_of copy_at
discovery_made = refl

broadcast_ipv4_send_lem_example :
    broadcast_ipv4_send toy_crypto world 0 broadcaster
    ≡ some (
      none,
      record broadcaster {
        wire =
            map
              (to_address toy_crypto world 0 discovery)
              ((255 ∷ 255 ∷ 255 ∷ 255 ∷ []) ∷ (10 ∷ 0 ∷ 0 ∷ 255 ∷ []) ∷ []);
        draws = 1;
      },
    )
broadcast_ipv4_send_lem_example =
    broadcast_ipv4_send_lem toy_crypto world 0 9 discovery broadcaster refl discovery_made

-- Nobody is known, and while the node sleeps a peer comes.
abbrev lonely : Node ℕ
lonely = record node { peer_list = [] }

abbrev peer_count : Option (Unit {0} × Node ℕ) → ℕ
peer_count none = 0
peer_count (some (_, n)) = length n.peer_list
