-- ===== src/Network/Init/Own.antt =====
-- Network Init.go: which calls add to the set of own addresses.
use peernet_core.Prelude.{
  ℕ, ◌≡◌, refl, subst, ap, ◌∙◌, Bool, true, false, not, List, [], ◌∷◌, Option, none, some, String,
  Outcome, ok, err, panic, arith, if-both, ltb, ◌==◌,
}
use peernet_core.Prelude.Int.{ℤ, pos, negsuc}
use peernet_core.Text.{Text}
use peernet_core.Text.Number.{atoi, value}
use peernet_core.Text.HostPort.{split_host_port}
use peernet_core.Text.Address.{parse_ip}
use peernet_core.Ip.{Bytes, is_ipv4}
use peernet_core.Connection.{UdpAddr}
use peernet_core.Network.{Adapters, Network, IpNet, System, listen_key, is_address_self, has_key}
use peernet_core.Network.Discovery.{
  prepare_broadcast, broadcast_opened, set_broadcasts, multicast_ipv6_join,
}
use peernet_core.Network.Listen.{
  auto_assign_port, connect_port_try, try_random, add_network, start_discovery, listed, listen_on,
  listen_found, network_prepare_listen, found_network,
}
use peernet_core.Network.Init.{
  listen_host, is_any, skip_error, listen_on_host, listen_configured, init_network,
}

module _ (os : System) where
  -- The set of own addresses is the same after a call.
  abbrev Keeps : {A : Type 0} → Adapters → A × Adapters → Type 0
  Keeps a r = r.1.ips_listen ≡ a.ips_listen

  set_broadcasts-Keeps :
      (k : ℕ) (a : Adapters) (o : Outcome (List Bytes)) → Keeps a (set_broadcasts os k a o)
  unfolding set_broadcasts
  set_broadcasts-Keeps k a (ok ips) = refl
  set_broadcasts-Keeps k a (err e) = refl
  set_broadcasts-Keeps k a panic = refl

  broadcast_opened-Keeps :
      (k : ℕ) (a : Adapters) (error : Option String) → Keeps a (broadcast_opened os k a error)
  unfolding broadcast_opened
  broadcast_opened-Keeps k a (some e) = refl
  broadcast_opened-Keeps k a none = set_broadcasts-Keeps k _ _

  discovery-Keeps : (ip : Bytes) (k : ℕ) (a : Adapters) → Keeps a (start_discovery os ip k a)
  unfolding start_discovery prepare_broadcast multicast_ipv6_join
  discovery-Keeps ip k a =
      if-both (Keeps a) (is_ipv4 ip)
        (if-both (Keeps a) (not os.broadcast_keys) refl (broadcast_opened-Keeps k a _))
        (if-both (Keeps a) (not os.multicast_keys) refl refl)

  add_network-Keeps : (ip : Bytes) (v : Network) (a : Adapters) → Keeps a (add_network os ip v a)
  unfolding add_network
  add_network-Keeps ip v a = ground arith

  try_random-Keeps :
      (ip : Bytes) (a : Adapters) (r : Outcome UdpAddr × Adapters)
      → Keeps a r
      → Keeps a (try_random os ip r)
  unfolding try_random connect_port_try
  try_random-Keeps ip a (ok address, a₁) same = same
  try_random-Keeps ip a (err e, a₁) same = same
  try_random-Keeps ip a (panic, a₁) same = same

  auto_assign_port-Keeps :
      (ip : Bytes) (port : ℤ) (a : Adapters) → Keeps a (auto_assign_port os ip port a)
  unfolding auto_assign_port connect_port_try
  auto_assign_port-Keeps ip (negsuc _) a = refl
  auto_assign_port-Keeps ip (pos port) a =
      if-both (Keeps a) (ltb 65535 port) refl
        (if-both (Keeps a) (port == 0) (try_random-Keeps ip a _ refl) refl)

  listed-Keeps :
      (ip : Bytes) (found : Option (String × IpNet)) (a : Adapters) (r : Outcome UdpAddr × Adapters)
      → Keeps a r
      → Keeps a (listed os ip found r)
  unfolding listed
  listed-Keeps ip found a (err e, a₁) same = same
  listed-Keeps ip found a (panic, a₁) same = same
  listed-Keeps ip found a (ok address, a₁) same =
      let v = found_network found address in
      let (k, a₂) = add_network os ip v a₁ in
      discovery-Keeps ip k a₂ ∙ add_network-Keeps ip v a₁ ∙ same

  listen_found-Keeps :
      (ip : Bytes) (port : ℤ) (found : Option (String × IpNet)) (a : Adapters)
      → Keeps a (listen_found os ip port found a)
  unfolding listen_found listen_on
  listen_found-Keeps ip port none a = refl
  listen_found-Keeps ip port (some found) a =
      listed-Keeps ip (some found) a _ (auto_assign_port-Keeps ip port a)

  network_prepare_listen-Keeps :
      (ip : Option Bytes) (wildcard : Bool) (port : ℤ) (a : Adapters)
      → Keeps a (network_prepare_listen os ip wildcard port a)
  unfolding network_prepare_listen listen_on
  network_prepare_listen-Keeps none wildcard port a = refl
  network_prepare_listen-Keeps (some ip) true port a =
      listed-Keeps ip none a _ (auto_assign_port-Keeps ip port a)
  network_prepare_listen-Keeps (some ip) false port a = listen_found-Keeps ip port _ a

  -- An outcome from which the set of own addresses is empty, if it is no panic.
  abbrev NoneOwn : Option Adapters → Type 0
  NoneOwn none = Unit {0}
  NoneOwn (some a) = a.ips_listen ≡ []

  skip_error-NoneOwn : (r : Outcome ℕ × Adapters) → r.1.ips_listen ≡ [] → NoneOwn (skip_error os r)
  unfolding skip_error
  skip_error-NoneOwn (ok k, a) e = e
  skip_error-NoneOwn (err text, a) e = e
  skip_error-NoneOwn (panic, a) e = tt

  listen_on_host-NoneOwn :
      (found : Option (Text × Text)) (a : Adapters)
      → a.ips_listen ≡ []
      → NoneOwn (listen_on_host os found a)
  unfolding listen_on_host
  listen_on_host-NoneOwn none a e = e
  listen_on_host-NoneOwn (some (host, port)) a e =
      skip_error-NoneOwn _
        (network_prepare_listen-Keeps (parse_ip host) (is_any host) (value (atoi port)) a ∙ e)

  next-NoneOwn :
      (r : Option Adapters) (f : Adapters → Option Adapters)
      → NoneOwn r
      → ((a : Adapters) → a.ips_listen ≡ [] → NoneOwn (f a))
      → NoneOwn (elim r [ none ↦ none | some a ↦ f a ])
  next-NoneOwn none f e next = tt
  next-NoneOwn (some a) f e next = next a e

  listen_configured-NoneOwn :
      (texts : List Text) (a : Adapters)
      → a.ips_listen ≡ []
      → NoneOwn (listen_configured os texts a)
  unfolding listen_configured
  listen_configured-NoneOwn [] a e = e
  listen_configured-NoneOwn (text ∷ texts) a e =
      next-NoneOwn _ _ (listen_on_host-NoneOwn (listen_host text (split_host_port text)) a e)
        (λ a₁ e₁. listen_configured-NoneOwn texts a₁ e₁)

  -- If addresses to listen on are configured, then after `initNetwork` no address is the node's
  -- own, those included that it listens on: `IsAddressSelf` is false for each.
  pub init_network-none_self :
      (text : Text) (texts : List Text) (a a' : Adapters) (addr : Option UdpAddr)
      → init_network os (text ∷ texts) a ≡ some a'
      → is_address_self addr a' ≡ false
  unfolding init_network is_address_self has_key
  init_network-none_self text texts a a' none e = refl
  init_network-none_self text texts a a' (some addr) e = ap (has_key (listen_key addr)) (
      subst NoneOwn e (
        listen_configured-NoneOwn (text ∷ texts) (record a { ips_listen = []; ifaces_exist = [] })
          refl))
