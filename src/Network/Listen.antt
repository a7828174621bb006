-- ===== src/Network/Listen.antt =====
-- Network Init.go, Network.go and Network Detection.go: listening on an address.
use peernet_core.Prelude.{
  ℕ, suc, Bool, true, false, ◌||◌, List, [], ◌∷◌, zeros, Option, none, some, String, Outcome, ok,
  err, panic, if◌then◌else◌, ltb, ◌==◌,
}
use peernet_core.Prelude.Int.{ℤ, pos, negsuc}
use peernet_core.Ip.{Bytes, ip_equal, is_ipv4, is_loopback, to16}
use peernet_core.Slice.{append}
use peernet_core.Connection.{UdpAddr}
use peernet_core.Network.{
  Network, Adapters, IpNet, Interface, System, Bound, failed, bound, new_network, set_network,
  add_listen_address,
}
use peernet_core.Network.Discovery.{prepare_broadcast, multicast_ipv6_join}

-- `FindInterfaceByIP`: the interface's name, and its network of that address.
unfoldable pub find_address : Bytes → List IpNet → Option IpNet
find_address ip [] = none
find_address ip (x ∷ xs) =
    let rest = find_address ip xs in if ip_equal x.ip ip then some x else rest

-- What an interface has at the IP, or else what was found behind it.
unfoldable pub found_or : String → Option IpNet → Option (String × IpNet) → Option (String × IpNet)
found_or name none rest = rest
found_or name (some x) rest = some (name, x)

unfoldable pub find_in_interfaces : Bytes → List Interface → Option (String × IpNet)
find_in_interfaces ip [] = none
find_in_interfaces ip (i ∷ is) =
    let rest = find_in_interfaces ip is in
    elim i.addrs [ none ↦ rest | some addresses ↦ found_or i.name (find_address ip addresses) rest ]

unfoldable pub find_in_list : Bytes → Option (List Interface) → Option (String × IpNet)
find_in_list ip none = none
find_in_list ip (some list) = find_in_interfaces ip list

unfoldable pub find_interface_by_ip : System → Bytes → Option (String × IpNet)
find_interface_by_ip os ip = find_in_list ip os.interfaces

-- `defaultPort`
abbrev pub default_port : ℕ
default_port = 112

-- What `connectPortTry` makes of the new socket.
unfoldable pub bound_address : Bytes → ℕ → Bound → Outcome UdpAddr
bound_address ip port (failed e) = err e
bound_address ip port (bound local) =
    if port == 0
    then elim local [
      | none ↦ err "invalid port assignment"
      | some p ↦ ok (record { ip = ip; port = p })
    ]
    else ok (record { ip = ip; port = port })

-- The new network, with the interface that was found for it.
unfoldable pub found_network : Option (String × IpNet) → UdpAddr → Network
found_network none address = new_network none none address
found_network (some (name, x)) address = new_network (some name) (some x) address

-- The network's pointer, whatever came of the discovery, unless that panics.
unfoldable pub started : ℕ → Outcome (Unit {0}) → Outcome ℕ
started k (ok _) = ok k
started k (err _) = ok k
started k panic = panic

module _ (os : System) where
  -- `connectPortTry`
  unfoldable pub connect_port_try : Bytes → ℕ → Adapters → Outcome UdpAddr × Adapters
  connect_port_try ip port a =
      (bound_address ip port (os.listen_udp a.binds ip port), record a { binds = suc a.binds })

  -- A random port, if the default port could not be had.
  unfoldable pub try_random : Bytes → Outcome UdpAddr × Adapters → Outcome UdpAddr × Adapters
  try_random ip (ok address, a) = (ok address, a)
  try_random ip (err e, a) = connect_port_try ip 0 a
  try_random ip (panic, a) = (panic, a)

  -- `AutoAssignPort`: the address that the network then has. A port that is not one is refused
  -- before the system is asked.
  unfoldable pub auto_assign_port : Bytes → ℤ → Adapters → Outcome UdpAddr × Adapters
  auto_assign_port ip (negsuc _) a = (err "invalid argument", a)
  auto_assign_port ip (pos port) a =
      if ltb 65535 port
      then (err "invalid argument", a)
      else if port == 0
      then try_random ip (connect_port_try ip default_port a)
      else connect_port_try ip port a

  -- The new network is put into the list of its kind.
  unfoldable pub add_network : Bytes → Network → Adapters → ℕ × Adapters
  add_network ip network a =
      let k = a.next_network in
      let a₁ = record (set_network a k network) { next_network = suc k } in
      (
        k,
        if is_ipv4 ip
            then record a₁ { networks4 = append a₁.networks4 k }
            else record a₁ { networks6 = append a₁.networks6 k },
      )

  -- The network joins the discovery of its kind, whose errors are not looked at.
  unfoldable pub start_discovery : Bytes → ℕ → Adapters → Outcome (Unit {0}) × Adapters
  start_discovery ip k a =
      if is_ipv4 ip then prepare_broadcast os k a else multicast_ipv6_join os k a

  -- The port is open: the network is listed, joins the discovery, and listens.
  unfoldable pub listed :
      Bytes → Option (String × IpNet) → Outcome UdpAddr × Adapters → Outcome ℕ × Adapters
  listed ip found (err e, a) = (err e, a)
  listed ip found (panic, a) = (panic, a)
  listed ip found (ok address, a) =
      let (k, a₁) = add_network ip (found_network found address) a in
      let (result, a₂) = start_discovery ip k a₁ in (started k result, a₂)

  -- `networkPrepareListen` from the parsed IP on, with the interface already looked up.
  unfoldable pub listen_on : Bytes → ℤ → Option (String × IpNet) → Adapters → Outcome ℕ × Adapters
  listen_on ip port found a = listed ip found (auto_assign_port ip port a)

  -- The interface must have been found.
  unfoldable pub listen_found :
      Bytes → ℤ → Option (String × IpNet) → Adapters → Outcome ℕ × Adapters
  listen_found ip port none a = (err "Error finding the network interface belonging to IP", a)
  listen_found ip port (some found) a = listen_on ip port (some found) a

  -- `networkPrepareListen`; the IP is what `net.ParseIP` gives for the text, and `wildcard` says
  -- that the text is "0.0.0.0" or "::".
  unfoldable pub network_prepare_listen : Option Bytes → Bool → ℤ → Adapters → Outcome ℕ × Adapters
  network_prepare_listen none wildcard port a = (err "Invalid input IP", a)
  network_prepare_listen (some ip) true port a = listen_on ip port none a
  network_prepare_listen (some ip) false port a =
      listen_found ip port (find_interface_by_ip os ip) a

  -- An IP whose text is "0.0.0.0" or "::".
  abbrev is_wildcard : Bytes → Bool
  is_wildcard ip = ip_equal ip (zeros 4) || ip_equal ip (zeros 16)

  -- What `networkStart` makes of the outcome for one IP; `none` is a panic.
  unfoldable pub listening : Outcome ℕ × Adapters → Option Adapters
  listening (err e, a) = some a
  listening (panic, a) = none
  listening (ok k, a) = some (add_listen_address (a.networks k).address a)

  -- One IP, which is printed and parsed again, so that it has 16 bytes.
  unfoldable pub start_address : Bytes → Adapters → Option Adapters
  start_address ip a =
      if is_loopback ip
      then some a
      else listening (network_prepare_listen (to16 ip) (is_wildcard ip) (pos 0) a)

  -- `networkStart`
  unfoldable pub network_start : List IpNet → Adapters → Option Adapters
  network_start [] a = some a
  network_start (x ∷ xs) a = elim (start_address x.ip a) [
    | none ↦ none
    | some a₁ ↦ network_start xs a₁
  ]
