-- ===== src/Network/Discovery.antt =====
-- Network IPv4 Broadcast.go and Network IPv6 Multicast.go: preparing the discovery of local peers.
pub mod Laws
pub mod Safe
use Prim.Native.Nat.{bit_and, bit_or}
use peernet_core.Prelude.{
  ℕ, ◌-◌, Bool, true, false, ◌&&◌, ◌||◌, not, List, [], ◌∷◌, ◌++◌, length, replicate, zeros, Option,
  none, some, String, Outcome, ok, err, panic, ◌>>=◌, if◌then◌else◌, ◌==◌,
}
use peernet_core.Ip.{Bytes, bytes_equal, v4_in_v6_prefix, to4, is_ipv4}
use peernet_core.Network.{Network, Adapters, IpNet, Interface, System, set_network, number_and_mask}

-- `ipv4BroadcastPort`, `ipv6MulticastPort` and `ipv6MulticastGroup`, "ff05::112" once parsed
abbrev pub ipv4_broadcast_port : ℕ
ipv4_broadcast_port = 12912

abbrev pub ipv6_multicast_port : ℕ
ipv6_multicast_port = 12912

abbrev pub ipv6_multicast_group : Bytes
ipv6_multicast_group = 255 ∷ 5 ∷ zeros 12 ++ 1 ∷ 18 ∷ []

-- `x & m` byte by byte.
unfoldable pub mask_bytes : Bytes → Bytes → Bytes
mask_bytes [] ms = []
mask_bytes (x ∷ xs) [] = []
mask_bytes (x ∷ xs) (m ∷ ms) = bit_and x m ∷ mask_bytes xs ms

-- An IPv4 address in its short form.
abbrev pub or_else : Option Bytes → Bytes → Bytes
or_else none ip = ip
or_else (some ip4) ip = ip4

abbrev pub shorter : Bytes → Bytes
shorter ip = or_else (to4 ip) ip

-- `net.IPNet.Contains`, by the network's number and mask.
abbrev pub has_number : Option (Bytes × Bytes) → Bytes → Bool
has_number none x = length x == 0
has_number (some (number, mask)) x =
    (length x == length number) && bytes_equal (mask_bytes number mask) (mask_bytes x mask)

unfoldable pub contains : IpNet → Bytes → Bool
contains net ip = has_number (number_and_mask net) (shorter ip)

-- `rfc3927Net`
abbrev pub rfc3927_net : IpNet
rfc3927_net = record {
  ip = v4_in_v6_prefix ++ 169 ∷ 254 ∷ 0 ∷ 0 ∷ [];
  mask = 255 ∷ 255 ∷ 0 ∷ 0 ∷ [];
}

-- `last[i] |= ^n.Mask[i]`
abbrev pub set_host_bits : ℕ → ℕ → ℕ
set_host_bits x m = bit_or x (255 - m)

-- The loop of `ipv4DirectedBroadcast`: an index past the mask panics.
unfoldable pub fill_host : Bytes → Bytes → Outcome Bytes
fill_host [] mask = ok []
fill_host (x ∷ xs) [] = panic
fill_host (x ∷ xs) (m ∷ ms) = fill_host xs ms >>= λ rest. ok (set_host_bits x m ∷ rest)

-- `ipv4DirectedBroadcast`; `none` is nil.
unfoldable pub ipv4_directed_broadcast : IpNet → Outcome (Option Bytes)
ipv4_directed_broadcast n = elim (to4 n.ip) [
  | none ↦ ok none
  | some ip4 ↦ fill_host ip4 n.mask >>= λ last. ok (some last)
]

-- The directed broadcasts of addresses, where there is one.
unfoldable pub directed_broadcasts : List IpNet → Outcome (List Bytes)
directed_broadcasts [] = ok []
directed_broadcasts (n ∷ ns) = ipv4_directed_broadcast n >>= λ found.
    directed_broadcasts ns >>= λ rest. ok (elim found [ none ↦ rest | some ip2 ↦ ip2 ∷ rest ])

-- The addresses that are IPv4 and not assigned by the host itself.
unfoldable pub broadcast_nets : List IpNet → List IpNet
broadcast_nets [] = []
broadcast_nets (n ∷ ns) =
    let rest = broadcast_nets ns in
    if not (is_ipv4 n.ip) || contains rfc3927_net n.ip then rest else n ∷ rest

unfoldable pub interface_broadcasts : List Interface → Outcome (List Bytes)
interface_broadcasts [] = ok []
interface_broadcasts (i ∷ is) = elim i.addrs [
  | none ↦ interface_broadcasts is
  | some addresses ↦ directed_broadcasts (broadcast_nets addresses) >>= λ ips.
      interface_broadcasts is >>= λ rest. ok (ips ++ rest)
]

-- `net.IPv4bcast`
abbrev pub ipv4_bcast : Bytes
ipv4_bcast = v4_in_v6_prefix ++ replicate 4 255

module _ (os : System) where
  -- `networkToIPv4BroadcastIPs`
  unfoldable pub network_to_ipv4_broadcast_ips : Option IpNet → Outcome (List Bytes)
  network_to_ipv4_broadcast_ips (some net) =
      directed_broadcasts (net ∷ []) >>= λ rest. ok (ipv4_bcast ∷ rest)
  network_to_ipv4_broadcast_ips none = elim os.interfaces [
    | none ↦ ok (ipv4_bcast ∷ [])
    | some list ↦ interface_broadcasts list >>= λ rest. ok (ipv4_bcast ∷ rest)
  ]

  -- The addresses are known, and the listener is started.
  unfoldable pub set_broadcasts :
      ℕ → Adapters → Outcome (List Bytes) → Outcome (Unit {0}) × Adapters
  set_broadcasts k a panic = (panic, a)
  set_broadcasts k a (err e) = (err e, a)
  set_broadcasts k a (ok ips) = (
    ok tt,
    set_network a k (record (a.networks k) { broadcast_ipv4 = ips; discovery_listens = true }),
  )

  -- The special socket's error, if any, and what follows.
  unfoldable pub broadcast_opened : ℕ → Adapters → Option String → Outcome (Unit {0}) × Adapters
  broadcast_opened k a (some e) = (err e, a)
  broadcast_opened k a none =
      set_broadcasts k (set_network a k (record (a.networks k) { broadcast_socket = true }))
        (network_to_ipv4_broadcast_ips (a.networks k).ipnet)

  -- `BroadcastIPv4`
  unfoldable pub prepare_broadcast : ℕ → Adapters → Outcome (Unit {0}) × Adapters
  prepare_broadcast k a =
      if not os.broadcast_keys
      then (ok tt, a)
      else broadcast_opened k a (os.listen_packet (a.networks k).address.ip ipv4_broadcast_port)

  -- `joinMulticastGroup`: an error of the group; the setting of the loopback is the system's.
  unfoldable pub joined_group : String → Network → Option String → Option String × Network
  joined_group iface network (some e) = (some e, network)
  joined_group iface network none = (none, record network { joined = iface ∷ network.joined })

  unfoldable pub join_multicast_group : String → Network → Option String × Network
  join_multicast_group iface network =
      joined_group iface network (os.join_group iface network.multicast_ip)

  -- Every interface; errors are not looked at.
  unfoldable pub join_all : List Interface → Network → Network
  join_all [] network = network
  join_all (i ∷ is) network = join_all is (join_multicast_group i.name network).1

  -- The groups that the network joins: that of its interface, or of all there are.
  unfoldable pub join_listed : Option (List Interface) → Network → Option String × Network
  join_listed none network = (some "no interfaces", network)
  join_listed (some list) network = (none, join_all list network)

  unfoldable pub join_groups : Option String → Network → Option String × Network
  join_groups (some iface) network = join_multicast_group iface network
  join_groups none network = join_listed os.interfaces network

  -- The listener is started if there was no error.
  unfoldable pub multicast_joined : Option String × Network → Outcome (Unit {0}) × Network
  multicast_joined (some e, network) = (err e, network)
  multicast_joined (none, network) = (ok tt, record network { discovery_listens = true })

  -- The special socket's error, if any, and what follows.
  unfoldable pub multicast_opened : Network → Option String → Outcome (Unit {0}) × Network
  multicast_opened network (some e) = (err e, network)
  multicast_opened network none =
      multicast_joined (join_groups network.iface (record network { multicast_socket = true }))

  -- `MulticastIPv6Join`
  unfoldable pub multicast_ipv6_join : ℕ → Adapters → Outcome (Unit {0}) × Adapters
  multicast_ipv6_join k a =
      if not os.multicast_keys
      then (ok tt, a)
      else (let network = record (a.networks k) { multicast_ip = ipv6_multicast_group } in
          let (result, network₁) =
            multicast_opened network (os.listen_packet network.address.ip ipv6_multicast_port) in
          (result, set_network a k network₁))
