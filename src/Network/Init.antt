-- ===== src/Network/Init.antt =====
-- Network Init.go: `initNetwork`; and `NetworkListIPs` of Network Detection.go.
pub mod Laws
pub mod Own
use peernet_core.Prelude.{
  ℕ, ◌≡◌, refl, Bool, true, false, ◌||◌, List, [], ◌∷◌, ◌++◌, Option, none, some, String, Outcome,
  ok, err, panic, map, if◌then◌else◌, ◌==◌,
}
use peernet_core.Prelude.Int.{ℤ, pos, negsuc}
use peernet_core.Ip.{Bytes, bytes_equal}
use peernet_core.Slice.{nil_slice}
use peernet_core.Text.{Text, codes, contains_text}
use peernet_core.Text.Number.{atoi, value}
use peernet_core.Text.HostPort.{
  HostPort, host_port, bad_address, missing_port, error_text, split_host_port,
}
use peernet_core.Text.Address.{parse_ip}
use peernet_core.Network.{Adapters, IpNet, Interface, System, new_network}
use peernet_core.Network.Listen.{network_prepare_listen, network_start}
use peernet_core.Network.Changes.{set_iface}

-- The IPs of one interface; none if they cannot be had.
abbrev pub ips_of : Option (List IpNet) → List Bytes
ips_of none = []
ips_of (some addresses) = map (λ x. x.ip) addresses

unfoldable pub ips_of_all : List Interface → List Bytes
ips_of_all [] = []
ips_of_all (i ∷ is) = ips_of i.addrs ++ ips_of_all is

-- `NetworkListIPs`; `none` is an error.
unfoldable pub network_list_ips : System → Option (List Bytes)
network_list_ips os = elim os.interfaces [ none ↦ none | some list ↦ some (ips_of_all list) ]

-- The package's variables on networks at the start. No pointer is in use.
abbrev pub initial_adapters : Adapters
initial_adapters = record {
  networks = λ k. new_network none none (record { ip = []; port = 0 });
  next_network = 0;
  networks4 = nil_slice;
  networks6 = nil_slice;
  ips_listen = [];
  ifaces_exist = [];
  binds = 0;
}

-- `config.ListenWorkers`: 2 stands for 0, and the loop starts none for a negative number.
unfoldable pub worker_count : ℤ → ℕ
worker_count (negsuc _) = 0
worker_count (pos n) = if n == 0 then 2 else n

-- Host and port of a configured address: the port is optional. The address is skipped on any other
-- error than a missing port, which the code looks for in the text of the error.
unfoldable pub listen_host : Text → HostPort → Option (Text × Text)
listen_host text (host_port host port) = some (host, port)
listen_host text (bad_address why) =
    if contains_text (error_text text why) (codes missing_port)
    then some (text, codes "0")
    else none

abbrev pub is_any : Text → Bool
is_any host = bytes_equal host (codes "0.0.0.0") || bytes_equal host (codes "::")

module _ (os : System) where
  -- The outcome of one address; `none` is a panic.
  unfoldable pub skip_error : Outcome ℕ × Adapters → Option Adapters
  skip_error (ok k, a) = some a
  skip_error (err e, a) = some a
  skip_error (panic, a) = none

  unfoldable pub listen_on_host : Option (Text × Text) → Adapters → Option Adapters
  listen_on_host none a = some a
  listen_on_host (some (host, port)) a =
      skip_error (network_prepare_listen os (parse_ip host) (is_any host) (value (atoi port)) a)

  -- The loop over `config.Listen`.
  unfoldable pub listen_configured : List Text → Adapters → Option Adapters
  listen_configured [] a = some a
  listen_configured (text ∷ texts) a =
      elim (listen_on_host (listen_host text (split_host_port text)) a) [
        | none ↦ none
        | some a₁ ↦ listen_configured texts a₁
      ]

  -- The loop over the interfaces.
  unfoldable pub listen_interfaces : List Interface → Adapters → Option Adapters
  listen_interfaces [] a = some a
  listen_interfaces (i ∷ is) a = elim i.addrs [
    | none ↦ listen_interfaces is a
    | some addresses ↦
        elim (network_start os addresses
          (record a { ifaces_exist = set_iface i.name addresses a.ifaces_exist })) [
            | none ↦ none
            | some a₁ ↦ listen_interfaces is a₁
          ]
  ]

  unfoldable pub listen_list : Option (List Interface) → Adapters → Option Adapters
  listen_list none a = some a
  listen_list (some list) a = listen_interfaces list a

  -- `initNetwork`, by what is configured.
  unfoldable pub init_network : List Text → Adapters → Option Adapters
  init_network [] a = listen_list os.interfaces (record a { ips_listen = []; ifaces_exist = [] })
  init_network (text ∷ texts) a =
      listen_configured (text ∷ texts) (record a { ips_listen = []; ifaces_exist = [] })
