-- ===== src/Node/Tests.antt =====
-- A node that knows one peer, over the stand-ins for the third-party code: the theorems of Node.
mod Discovery
mod Peerlist
mod Run
mod Seeds
mod Start
use peernet_core.Prelude.{
  true, ◌<◌, ap, Option, inl, ℕ, ◌≡◌, ◌≢◌, refl, false, List, [], ◌∷◌, map, none, some, arith,
  if◌then◌else◌, true, zeros, replicate, ◌++◌, ok, copy_at,
}
use peernet_core.Network.{new_network, accept_unicast}
use peernet_core.Fixtures.{toy_crypto, toy_rand}
use peernet_core.Ip.{Bytes, bytes_equal}
use peernet_core.Packet.{packet_encrypt, packet_garbage, fill, nonce_of}
use peernet_core.Slice.{nil_slice}
use peernet_core.Slice.Pointers.{has}
use peernet_core.Connection.{Connection, PeerInfo, active}
use mathlib.Core.List.{Nodup-cons, Nodup-nil, not-mem-nil}
use peernet_core.Connection.Invariant.{IsConsistent}
use peernet_core.Node.{Node, World, modify, local_ip}
use peernet_core.Node.Invariant.{IsSound}
use peernet_core.Node.Invariant.Worker.{StaysSound, packet_worker-StaysSound}
use peernet_core.Node.Worker.Known.{Credited, process-Credited}
use peernet_core.Node.Bootstrap.{RootPeer}
use peernet_core.Node.Peerlist.{
  map_get, peerlist_count, peerlist_add, peerlist_remove, peerlist_lookup, public_key2_compressed,
}
use peernet_core.Node.Peerlist.Laws.{lookup-add, lookup-remove}
use peernet_core.Node.Sending.{send}
use peernet_core.Node.Sending.Laws.{Sends, attempts, datagram, send_lem}
use peernet_core.Node.Commands.{plain, command_ping, command_pong, command_announcement}
use peernet_core.Node.Worker.{NetworkWire, packet_worker, process}
use peernet_core.Node.Worker.Laws.{Survives, packet_worker-Survives}

abbrev pub world : World toy_crypto
world = record {
  private_key = 1;
  public_key = 1;
  broadcast_key = some 9;
  multicast_key = some 8;
  rand = λ n. toy_rand;
  write_to = λ wire d. none;
}

abbrev pub remote : Connection
remote = record {
  network = 0;
  address = record { ip = 10 ∷ 0 ∷ 0 ∷ 2 ∷ []; port = 112 };
  last_packet_in = 0;
  last_packet_out = 0;
  last_ping_out = 0;
  expires = 0;
  status = active;
}

abbrev other : PeerInfo ℕ
other = record {
  public_key = 2;
  connection_active = record { array = 0 ∷ []; len = 1 };
  connection_inactive = nil_slice;
  connection_latest = some 0;
  stats_packet_sent = 0;
  stats_packet_received = 0;
}

abbrev pub node : Node ℕ
node = record {
  connections = λ c. remote;
  next_connection = 1;
  peers = λ q. other;
  next_peer = 1;
  peer_list = (2 ∷ zeros 32, 0) ∷ [];
  adapters = record {
    networks =
        λ k. new_network (some "eth0") none (record { ip = 10 ∷ 0 ∷ 0 ∷ 1 ∷ []; port = 112 });
    next_network = 1;
    networks4 = record { array = 0 ∷ []; len = 1 };
    networks6 = nil_slice;
    ips_listen = [];
    ifaces_exist = [];
    binds = 0;
  };
  wire = [];
  draws = 0;
}

lookup-add_example :
    let (peer, added, n') = peerlist_add toy_crypto node 7 (5 ∷ []) in
    (peerlist_lookup toy_crypto n' 2 ≡ (
      if bytes_equal (public_key2_compressed toy_crypto 7) (public_key2_compressed toy_crypto 2)
      then peer
      else peerlist_lookup toy_crypto node 2))
    × (peer ≢ none)
lookup-add_example = lookup-add toy_crypto node 7 2 5 []

lookup-remove_example : peerlist_lookup toy_crypto (peerlist_remove toy_crypto node 0) 2 ≡ (
    if bytes_equal (public_key2_compressed toy_crypto 2) (public_key2_compressed toy_crypto 2)
    then none
    else peerlist_lookup toy_crypto node 2)
lookup-remove_example = lookup-remove toy_crypto node 0 2

-- An announcement from key 5 to key 1.
abbrev pub announcement : List ℕ
announcement = 4 ∷ 3 ∷ 2 ∷ 1 ∷ replicate 7 255 ++ 250 ∷ replicate 64 255

announcement_made :
    packet_encrypt toy_crypto toy_rand 5 1 (plain command_announcement) ≡ ok announcement
unfolding packet_encrypt packet_garbage fill nonce_of copy_at
announcement_made = refl

abbrev pub wire : NetworkWire ℕ
wire = record {
  network = 0;
  sender = record { ip = 10 ∷ 0 ∷ 0 ∷ 3 ∷ []; port = 112 };
  receiver_public_key = 1;
  raw = announcement;
}

packet_worker-Survives_example :
    Survives toy_crypto world wire 5 node (packet_worker toy_crypto world wire 5 node)
unfolding accept_unicast
packet_worker-Survives_example =
    packet_worker-Survives toy_crypto world wire 5 node announcement 0 remote.address node.adapters
      (inl refl)

-- A ping from key 1 to key 2.
abbrev ping : List ℕ
ping = 4 ∷ 3 ∷ 2 ∷ 1 ∷ 255 ∷ 253 ∷ replicate 5 255 ++ 254 ∷ replicate 64 255

ping_made : packet_encrypt toy_crypto toy_rand 1 2 (plain command_ping) ≡ ok ping
unfolding packet_encrypt packet_garbage fill nonce_of copy_at
ping_made = refl

send_lem_example :
    Sends toy_crypto world node
      (map (datagram (λ c. remote) ping) (attempts toy_crypto world (some 0) (0 ∷ []) (λ k. none)))
      (send toy_crypto world 0 (plain command_ping) 5 node)
send_lem_example =
    send_lem toy_crypto world 0 (plain command_ping) 5 ping node (λ e. ground arith) (omega arith)
      ping_made

abbrev root : RootPeer ℕ
root = record {
  peer = none;
  public_key = 2;
  addresses = record { ip = 10 ∷ 0 ∷ 0 ∷ 2 ∷ []; port = 112 } ∷ [];
}

other-IsConsistent : IsConsistent (local_ip node) node.connections other
other-IsConsistent = record {
  active_slice = omega arith;
  inactive_slice = omega arith;
  distinct = Nodup-cons.1 (not-mem-nil, Nodup-nil);
  listed = refl;
  active_status = λ d m. ground arith;
  inactive_status = λ d m. absurd (ground arith);
}

known : peerlist_lookup toy_crypto node 2 ≡ some 0
unfolding peerlist_lookup map_get public_key2_compressed bytes_equal copy_at
known = refl

-- A pong from the peer that is known.
process-Credited_example :
    Credited toy_crypto world wire 5 0 node
      (process toy_crypto world wire (plain command_pong) 2 5 node)
process-Credited_example =
    process-Credited toy_crypto world wire (plain command_pong) 2 5 0 node known other-IsConsistent
      refl (λ e. ground arith) (λ e. ground arith)

first : (q : ℕ) → has q (map (λ e. e.1) node.peer_list) ≡ true → q < 1
first q e = ground arith

pub node-IsSound : IsSound (λ d. 0) node
node-IsSound = record {
  consistent = λ q lt. other-IsConsistent;
  owned = λ q d lt m. (omega arith, ground arith);
  known = first;
}

packet_worker-StaysSound_example :
    StaysSound toy_crypto world (λ d. 0) (packet_worker toy_crypto world wire 5 node)
unfolding accept_unicast
packet_worker-StaysSound_example =
    packet_worker-StaysSound toy_crypto world (λ d. 0) wire 5 node announcement 0 remote.address
      node.adapters node-IsSound (inl refl)

-- An announcement from key 1 to key 2.
abbrev greeting : List ℕ
greeting = 4 ∷ 3 ∷ 2 ∷ 1 ∷ replicate 7 255 ++ 254 ∷ replicate 64 255
