-- ===== src/Network.antt =====
-- Network.go, Network Init.go and Network Detection.go: the networks that the node listens on.
pub mod Laws
pub mod Discovery
pub mod Listen
pub mod Invariant
pub mod Init
pub mod Changes
pub mod Tests
use text.Mathlib.Text.{find?}
use peernet_core.Prelude.{
  ℕ, suc, Bool, true, false, ◌&&◌, not, List, [], ◌∷◌, length, Option, none, some, String,
  if◌then◌else◌, ◌==◌, ltb, leb, beq, drop,
}
use peernet_core.Ip.{Bytes, bytes_equal, to4, is_link_local_unicast}
use peernet_core.Ip.Canonical.{canonical}
use peernet_core.Packet.{packet_length_min}
use peernet_core.Slice.{Slice}
use peernet_core.Connection.{UdpAddr}

-- `net.IPNet`
pub record IpNet : Type 0 where
  pub ip : Bytes
  pub mask : Bytes

-- `networkNumberAndMask` of net: the IP and the mask in the shorter form, if they fit.
unfoldable pub number_and_mask : IpNet → Option (Bytes × Bytes)
number_and_mask x = elim (to4 x.ip) [
  | some ip4 ↦
      if length x.mask == 4
      then some (ip4, x.mask)
      else if length x.mask == 16
      then some (ip4, drop 12 x.mask)
      else none
  | none ↦ if (length x.ip == 16) && (length x.mask == 16) then some (x.ip, x.mask) else none
]

-- `iface` is the name of the interface, if there is one; a nil IP or list is empty. The sockets
-- themselves are outside: of the socket and the signal channel it is kept whether they are closed,
-- of the multicast and the broadcast socket whether they are open. `joined` has the interfaces on
-- which the multicast socket is in the group, and `discovery_listens` says that the goroutine on
-- the multicast or broadcast socket was started.
pub record Network : Type 0 where
  pub iface : Option String
  pub ipnet : Option IpNet
  pub address : UdpAddr
  pub multicast_ip : Bytes
  pub multicast_socket : Bool
  pub joined : List String
  pub broadcast_socket : Bool
  pub broadcast_ipv4 : List Bytes
  pub discovery_listens : Bool
  pub is_terminated : Bool
  pub terminate_closed : Bool
  pub socket_closed : Bool

-- `new(Network)` with the interface and the address that it then gets.
abbrev pub new_network : Option String → Option IpNet → UdpAddr → Network
new_network iface ipnet address = record {
  iface = iface;
  ipnet = ipnet;
  address = address;
  multicast_ip = [];
  multicast_socket = false;
  joined = [];
  broadcast_socket = false;
  broadcast_ipv4 = [];
  discovery_listens = false;
  is_terminated = false;
  terminate_closed = false;
  socket_closed = false;
}

-- `net.Interface`, and what `Addrs` returns for it.
pub record Interface : Type 0 where
  pub name : String
  pub addrs : Option (List IpNet)

-- What `net.ListenUDP` on an IP and a port returns: an error, or a socket with its local port,
-- if it knows that.
pub data Bound : Type 0 where
  failed : String → Bound
  bound : Option ℕ → Bound

-- The operating system during one call: what `net.Interfaces` returns, each `net.ListenUDP`, the
-- errors of `reuseport.ListenPacket` on an IP and a port, and those of `JoinGroup` of x/net/ipv6 on
-- an interface. The two Booleans say that the key pair for broadcast, and that for multicast, are
-- set, which only the initialization changes.
pub record System : Type 0 where
  pub interfaces : Option (List Interface)
  pub listen_udp : ℕ → Bytes → ℕ → Bound
  pub listen_packet : Bytes → ℕ → Option String
  pub join_group : String → Bytes → Option String
  pub broadcast_keys : Bool
  pub multicast_keys : Bool

-- Network Detection.go, `IsNetworkErrorFatal`; no error is `none`.
unfoldable pub is_network_error_fatal : Option String → Bool
is_network_error_fatal none = false
is_network_error_fatal (some text) =
    elim (find? text "requested address is not valid in its context") [
      | none ↦ false
      | some _ ↦ true
    ]

-- The key of `ipsListen`: the program joins the IP's text and the port, and the text of an IPv4
-- address is that of its IPv6 form.
abbrev pub ListenKey : Type 0
ListenKey = Bytes × ℕ

abbrev pub listen_key : UdpAddr → ListenKey
listen_key addr = (canonical addr.ip, addr.port)

abbrev pub key_equal : ListenKey → ListenKey → Bool
key_equal (a, p) (b, q) = (p == q) && bytes_equal a b

-- The package's variables on networks. Pointers to networks are numbers; `next_network` is the
-- first that is not in use. `ips_listen` is the set `ipsListen`, and `ifaces_exist` the map
-- `ifacesExist`; `binds` counts the calls of `net.ListenUDP`.
pub record Adapters : Type 0 where
  pub networks : ℕ → Network
  pub next_network : ℕ
  pub networks4 : Slice
  pub networks6 : Slice
  pub ips_listen : List ListenKey
  pub ifaces_exist : List (String × List IpNet)
  pub binds : ℕ

-- `GetNetworks`; any other type than 4 and 6 has none.
unfoldable pub get_networks : ℕ → Adapters → Option Slice
get_networks network_type a =
    if network_type == 4
    then some a.networks4
    else if network_type == 6
    then some a.networks6
    else none

-- `delete(ipsListen, …)`
unfoldable pub delete_key : ListenKey → List ListenKey → List ListenKey
delete_key k [] = []
delete_key k (x ∷ xs) = let rest = delete_key k xs in if key_equal x k then rest else x ∷ rest

unfoldable pub has_key : ListenKey → List ListenKey → Bool
has_key k [] = false
has_key k (x ∷ xs) = let rest = has_key k xs in if key_equal x k then true else rest

-- `addListenAddress`, `removeListenAddress` and `IsAddressSelf`; a nil address is `none`.
unfoldable pub add_listen_address : UdpAddr → Adapters → Adapters
add_listen_address addr a = record a {
  ips_listen =
      if has_key (listen_key addr) a.ips_listen
      then a.ips_listen
      else listen_key addr ∷ a.ips_listen;
}

unfoldable pub remove_listen_address : UdpAddr → Adapters → Adapters
remove_listen_address addr a = record a { ips_listen = delete_key (listen_key addr) a.ips_listen }

unfoldable pub is_address_self : Option UdpAddr → Adapters → Bool
is_address_self none a = false
is_address_self (some addr) a = has_key (listen_key addr) a.ips_listen

-- A pointer's network is changed.
abbrev pub set_network : Adapters → ℕ → Network → Adapters
set_network a k v = record a { networks = λ d. if d == k then v else a.networks d }

-- `Network.Terminate`
unfoldable pub terminate : ℕ → Adapters → Adapters
terminate k a =
    if (a.networks k).is_terminated
    then a
    else remove_listen_address (a.networks k).address (
        set_network a k (record (a.networks k) {
          is_terminated = true;
          terminate_closed = true;
          socket_closed = true;
        }))

-- `maxPacketSize`
abbrev pub max_packet_size : ℕ
max_packet_size = 4096

-- `Listen`, once a packet is read: what is sent to the workers. A longer packet than the buffer is
-- an error of the read.
unfoldable pub accept_unicast : List ℕ → Option (List ℕ)
accept_unicast raw = if ltb (length raw) packet_length_min then none else some raw

-- `BroadcastIPv4Listen` and `MulticastIPv6Listen`, once a packet is read.
unfoldable pub accept_discovery : ℕ → UdpAddr → List ℕ → Adapters → Option (List ℕ)
accept_discovery k sender raw a =
    if is_address_self (some sender) a
    then none
    else if not
        (beq (is_link_local_unicast sender.ip) (is_link_local_unicast (a.networks k).address.ip))
    then none
    else if ltb (length raw) packet_length_min
    then none
    else some raw
