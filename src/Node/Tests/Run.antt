-- ===== src/Node/Tests/Run.antt =====
-- A node that is started on a machine that cannot list its interfaces, pings nobody, gets an
-- announcement, and removes the peer again.
use peernet_core.Prelude.{ℕ, ◌≡◌, refl, true, [], none, some, inl}
use peernet_core.Fixtures.{toy_crypto, toy_rand}
use peernet_core.Text.Hex.{decode_string}
use peernet_core.Identity.{init_peer_id, identity_from, load_identity}
use peernet_core.Identity.Tests.{toy_yaml, keyed}
use peernet_core.Network.{System, failed, accept_unicast}
use peernet_core.Network.Init.{initial_adapters, init_network, listen_list, worker_count}
use peernet_core.Node.Bootstrap.Seeds.{init_seed_list, add_seeds}
use peernet_core.Node.{Node}
use peernet_core.Node.Commands.{ping_all, for_peers}
use peernet_core.Node.Peerlist.{peerlist_remove}
use peernet_core.Node.Worker.{packet_worker}
use peernet_core.Node.Invariant.{IsSound}
use peernet_core.Node.Invariant.Worker.{StaysSound, packet_worker-StaysSound}
use peernet_core.Node.Invariant.Ping.{Leaves}
use peernet_core.Node.Invariant.Rounds.{ping_all-LeavesSound}
use peernet_core.Node.Start.Laws.{initial-IsSound}
use peernet_core.Node.Start.{Started, initial_node, world_of, init, with_identity, with_network}
use peernet_core.Node.Run.{
  here, later, ping, packet, forget, IsOwned, running-IsOwned, Reach, tick, running-Survives,
}
use peernet_core.Node.Tests.{world, node, node-IsSound, wire, announcement, remote}

abbrev closed : System
closed = record {
  interfaces = none;
  listen_udp = λ n ip port. failed "in use";
  listen_packet = λ ip port. none;
  join_group = λ iface group. none;
  broadcast_keys = true;
  multicast_keys = true;
}

abbrev first : Started toy_crypto
first = record {
  world = world_of toy_crypto toy_yaml [] closed (λ n. toy_rand) (λ out d. none) (11, 11);
  node = initial_node 11 initial_adapters;
  roots = [];
  settings = keyed;
  workers = worker_count keyed.config.listen_workers;
}

starts : init toy_crypto toy_yaml [] closed (λ n. toy_rand) (λ out d. none) none keyed ≡ some first
unfolding init with_identity with_network init_peer_id identity_from load_identity decode_string
    init_network listen_list init_seed_list add_seeds
starts = refl

pings : ping_all toy_crypto first.world 3 first.node ≡ some (tt, first.node)
unfolding ping_all for_peers
pings = refl

arrives :
    StaysSound toy_crypto first.world
      (λ d. 0)
      (packet_worker toy_crypto first.world wire 5 first.node)
unfolding accept_unicast
arrives =
    packet_worker-StaysSound toy_crypto first.world (λ d. 0) wire 5 first.node announcement 0
      remote.address first.node.adapters (initial-IsSound (λ d. 0) 11 initial_adapters) (inl refl)

running-IsOwned_example : IsOwned toy_crypto (peerlist_remove toy_crypto arrives.0 0)
unfolding accept_unicast
running-IsOwned_example =
    running-IsOwned toy_crypto toy_yaml [] closed (λ n. toy_rand) (λ out d. none) none keyed tt
      first (peerlist_remove toy_crypto arrives.0 0) starts
      (later
        (later (later here (ping 3 pings))
          (packet wire 5 announcement 0 remote.address (inl refl) arrives.2))
        (forget 0))

running-Survives_example :
    (n' : Node ℕ) × (ping_all toy_crypto first.world 99000000000 arrives.0 ≡ some (tt, n'))
    × Reach toy_crypto first.world first.node n'
unfolding accept_unicast
running-Survives_example =
    running-Survives toy_crypto toy_yaml [] closed (λ n. toy_rand) (λ out d. none) none keyed tt
      first arrives.0 (tick 99000000000) starts
      (later here (packet wire 5 announcement 0 remote.address (inl refl) arrives.2))

ping_all-LeavesSound_example :
    Leaves (IsSound (λ d. 0)) (ping_all toy_crypto world 99000000000 node)
ping_all-LeavesSound_example =
    ping_all-LeavesSound toy_crypto world (λ d. 0) 99000000000 node node-IsSound
