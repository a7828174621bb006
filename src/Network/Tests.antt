-- ===== src/Network/Tests.antt =====
-- Two networks on one interface: runs, and the theorems of Network at them.
use peernet_core.Prelude.{
  zero, suc, ap, length, zeros, replicate, Option, ok, ◌+◌, ◌==◌, ◌≢◌, ◌<◌, get_elem?, subst, take,
  drop, ◌++◌, ℕ, ◌≡◌, refl, false, true, [], ◌∷◌, none, some, arith, if◌then◌else◌,
}
use peernet_core.Ip.{Bytes, v4_in_v6_prefix, to4, ip_equal, bytes_equal}
use peernet_core.Slice.{remove_at, nil_slice, items}
use peernet_core.Connection.{UdpAddr}
use peernet_core.Network.Discovery.{contains, ipv4_directed_broadcast}
use peernet_core.Network.Discovery.Laws.{IsDirected, ipv4_directed_broadcast-IsDirected}
use peernet_core.Network.Discovery.Safe.{SystemMasked}
use peernet_core.Network.Init.{initial_adapters, init_network}
use peernet_core.Network.Init.Own.{init_network-none_self}
use peernet_core.Network.Init.Laws.{init_network-StaysFiled}
use peernet_core.Text.{codes}
use peernet_core.Network.Invariant.{IsFiled}
use peernet_core.Network.Invariant.Start.{StaysFiled}
use peernet_core.Network.Invariant.Changes.{change_monitor-StaysFiled}
use peernet_core.Network.{
  System, IpNet, bound, failed, Adapters, new_network, terminate, is_address_self, listen_key,
  key_equal,
}
use peernet_core.Network.Laws.{is_address_self-terminate}
use peernet_core.Network.Changes.{is_on_interface, is_on_ip, remove_loop, change_monitor}
use peernet_core.Network.Changes.Laws.{remove_loop_two, remove_loop_one}

abbrev address : ℕ → UdpAddr
address host = record { ip = 10 ∷ 0 ∷ 0 ∷ host ∷ []; port = 112 }

abbrev adapters : Adapters
adapters = record {
  networks = λ k. new_network (some "eth0") none (address k);
  next_network = 2;
  networks4 = record { array = 0 ∷ 1 ∷ []; len = 2 };
  networks6 = nil_slice;
  ips_listen = listen_key (address 0) ∷ listen_key (address 1) ∷ [];
  ifaces_exist = [];
  binds = 0;
}

is_address_self-terminate_example : is_address_self (some (address 0)) (terminate 1 adapters) ≡ (
    if key_equal (listen_key (address 1)) (listen_key (address 0))
    then false
    else is_address_self (some (address 0)) adapters)
is_address_self-terminate_example = is_address_self-terminate adapters 1 (address 0) refl

remove_loop_two_example :
    let (a', s) =
      remove_loop (is_on_interface "eth0") 0 2 adapters (record { array = 0 ∷ 1 ∷ []; len = 2 }) in
    (a' ≡ terminate 1 (terminate 0 adapters)) × (items s ≡ 1 ∷ [])
remove_loop_two_example =
    remove_loop_two (is_on_interface "eth0") adapters 0 1 [] (λ e. ground arith) refl refl

-- Only the second network has the second address.
others :
    (i d : ℕ)
    → i ≢ 1
    → i < 2
    → get_elem? (0 ∷ 1 ∷ []) i ≡ some d
    → is_on_ip (10 ∷ 0 ∷ 0 ∷ 1 ∷ []) (adapters.networks d) ≡ false
unfolding ip_equal bytes_equal
others zero d ne lt e =
    let h : 0 ≡ d = cc in
    subst (λ z. is_on_ip (10 ∷ 0 ∷ 0 ∷ 1 ∷ []) (adapters.networks z) ≡ false) h refl
others (suc zero) d ne lt e = absurd (ne refl)
others (suc (suc i)) d ne lt e = absurd (omega arith)

remove_loop_one_example :
    (remove_loop (is_on_ip (10 ∷ 0 ∷ 0 ∷ 1 ∷ [])) 0 2 adapters adapters.networks4
      ≡ (terminate 1 adapters, remove_at adapters.networks4 1))
    × (items (remove_at adapters.networks4 1)
        ≡ take 1 (items adapters.networks4) ++ drop 2 (items adapters.networks4))
unfolding ip_equal bytes_equal
remove_loop_one_example =
    remove_loop_one (is_on_ip (10 ∷ 0 ∷ 0 ∷ 1 ∷ [])) adapters adapters.networks4 1 1 (omega arith)
      (omega arith) refl refl others

-- A machine with one interface, on which it has 10.0.0.2/8 and a link-local IPv6 address.
abbrev net4 : IpNet
net4 = record { ip = v4_in_v6_prefix ++ 10 ∷ 0 ∷ 0 ∷ 2 ∷ []; mask = 255 ∷ 0 ∷ 0 ∷ 0 ∷ [] }

abbrev net6 : IpNet
net6 = record { ip = 254 ∷ 128 ∷ zeros 13 ++ 7 ∷ []; mask = replicate 8 255 ++ zeros 8 }

abbrev pub machine : System
machine = record {
  interfaces = some (record { name = "eth0"; addrs = some (net4 ∷ net6 ∷ []) } ∷ []);
  listen_udp = λ n ip port. if port == 0 then bound (some (5000 + n)) else failed "in use";
  listen_packet = λ ip port. none;
  join_group = λ iface group. none;
  broadcast_keys = true;
  multicast_keys = true;
}

abbrev size : Option Bytes → ℕ
size none = 0
size (some b) = length b

ipv4_directed_broadcast-IsDirected_example :
    (b : Bytes) × (ipv4_directed_broadcast net4 ≡ ok (some b))
    × IsDirected (10 ∷ 0 ∷ 0 ∷ 2 ∷ []) net4.mask b
    × (contains net4 b ≡ true)
unfolding to4 bytes_equal
ipv4_directed_broadcast-IsDirected_example =
    ipv4_directed_broadcast-IsDirected net4 (10 ∷ 0 ∷ 0 ∷ 2 ∷ []) refl refl refl
      (omega arith, (omega arith, (omega arith, (omega arith, tt))))
      (omega arith, (omega arith, (omega arith, (omega arith, tt))))

pub machine-SystemMasked : SystemMasked machine
unfolding to4 bytes_equal
machine-SystemMasked = ((λ ip4 e. omega (arith, ap size e), (λ ip4 e. absurd (cc), tt)), tt)

empty-IsFiled : IsFiled initial_adapters
empty-IsFiled = record { filed4 = λ k h. absurd (cc); filed6 = λ k h. absurd (cc) }

change_monitor-StaysFiled_example : StaysFiled (change_monitor machine initial_adapters)
change_monitor-StaysFiled_example =
    change_monitor-StaysFiled machine machine-SystemMasked initial_adapters empty-IsFiled

init_network-StaysFiled_example :
    StaysFiled (init_network machine (codes "10.0.0.2" ∷ codes "[::1]:112:3" ∷ []) initial_adapters)
init_network-StaysFiled_example =
    init_network-StaysFiled machine machine-SystemMasked
      (codes "10.0.0.2" ∷ codes "[::1]:112:3" ∷ [])

-- A node that listens on 10.0.0.2:5001, since the default port is in use.
abbrev there : Adapters
there = (init_network-StaysFiled machine machine-SystemMasked (codes "10.0.0.2" ∷ [])).0

init_network-none_self_example :
    is_address_self (some (record { ip = 10 ∷ 0 ∷ 0 ∷ 2 ∷ []; port = 5001 })) there ≡ false
init_network-none_self_example =
    init_network-none_self machine (codes "10.0.0.2") [] initial_adapters there
      (some (record { ip = 10 ∷ 0 ∷ 0 ∷ 2 ∷ []; port = 5001 }))
      (init_network-StaysFiled machine machine-SystemMasked (codes "10.0.0.2" ∷ [])).1
