-- ===== src/Network/Init/Laws.antt =====
-- Network Init.go: `initNetwork` does not panic, and sorts the networks by kind.
use peernet_core.Prelude.{ℕ, refl, List, [], ◌∷◌, Option, none, some, Outcome, ok, err, panic}
use peernet_core.Text.{Text}
use peernet_core.Text.Number.{atoi, value}
use peernet_core.Text.HostPort.{split_host_port}
use peernet_core.Text.Address.{parse_ip}
use peernet_core.Network.{Adapters, IpNet, Interface, System}
use peernet_core.Network.Discovery.Safe.{SystemMasked}
use peernet_core.Network.Listen.{network_start}
use peernet_core.Network.Changes.{set_iface}
use peernet_core.Network.Invariant.{IsFiled}
use peernet_core.Network.Invariant.Listen.{FiledAfter}
use peernet_core.Network.Invariant.Start.{
  StaysFiled, next-StaysFiled, network_prepare_listen-FiledAfter, network_start-StaysFiled,
}
use peernet_core.Network.Init.{
  initial_adapters, listen_host, is_any, skip_error, listen_on_host, listen_configured,
  listen_interfaces, listen_list, init_network,
}

module _ (os : System) (system : SystemMasked os) where
  skip_error-StaysFiled : (r : Outcome ℕ × Adapters) → FiledAfter r → StaysFiled (skip_error os r)
  unfolding skip_error
  skip_error-StaysFiled (ok k, a) (fine, filed) = (a, refl, filed)
  skip_error-StaysFiled (err e, a) (fine, filed) = (a, refl, filed)
  skip_error-StaysFiled (panic, a) (fine, filed) = absurd (fine tt)

  listen_on_host-StaysFiled :
      (found : Option (Text × Text)) (a : Adapters)
      → IsFiled a
      → StaysFiled (listen_on_host os found a)
  unfolding listen_on_host
  listen_on_host-StaysFiled none a filed = (a, refl, filed)
  listen_on_host-StaysFiled (some (host, port)) a filed = skip_error-StaysFiled _ (
      network_prepare_listen-FiledAfter os (parse_ip host) (is_any host) (value (atoi port)) a
        system filed)

  listen_configured-StaysFiled :
      (texts : List Text) (a : Adapters) → IsFiled a → StaysFiled (listen_configured os texts a)
  unfolding listen_configured
  listen_configured-StaysFiled [] a filed = (a, refl, filed)
  listen_configured-StaysFiled (text ∷ texts) a filed =
      next-StaysFiled _ _
        (listen_on_host-StaysFiled (listen_host text (split_host_port text)) a filed)
        (λ a₁ filed₁. listen_configured-StaysFiled texts a₁ filed₁)

  known-IsFiled :
      (a : Adapters) (exist : _) → IsFiled a → IsFiled (record a { ifaces_exist = exist })
  known-IsFiled a exist filed = record { filed4 = filed.filed4; filed6 = filed.filed6 }

  listen_interfaces-StaysFiled :
      (is : List Interface) (a : Adapters) → IsFiled a → StaysFiled (listen_interfaces os is a)
  unfolding listen_interfaces
  listen_interfaces-StaysFiled [] a filed = (a, refl, filed)
  listen_interfaces-StaysFiled (i ∷ is) a filed =
      go i.addrs (λ a₁ filed₁. listen_interfaces-StaysFiled is a₁ filed₁)
    where
      go :
          (o : Option (List IpNet))
          → ((a₁ : Adapters) → IsFiled a₁ → StaysFiled (listen_interfaces os is a₁))
          → StaysFiled (elim o [
            | none ↦ listen_interfaces os is a
            | some addresses ↦
                elim (network_start os addresses
                  (record a { ifaces_exist = set_iface i.name addresses a.ifaces_exist })) [
                    | none ↦ none
                    | some a₁ ↦ listen_interfaces os is a₁
                  ]
          ])
      go none rest = rest a filed
      go (some addresses) rest =
          next-StaysFiled _ _
            (network_start-StaysFiled os addresses
              (record a { ifaces_exist = set_iface i.name addresses a.ifaces_exist }) system
              (known-IsFiled a _ filed))
            rest

  listen_list-StaysFiled :
      (list : Option (List Interface)) (a : Adapters)
      → IsFiled a
      → StaysFiled (listen_list os list a)
  unfolding listen_list
  listen_list-StaysFiled none a filed = (a, refl, filed)
  listen_list-StaysFiled (some list) a filed = listen_interfaces-StaysFiled list a filed

  start-IsFiled : IsFiled initial_adapters
  start-IsFiled = record { filed4 = λ k h. absurd (cc); filed6 = λ k h. absurd (cc) }

  -- `initNetwork` at the start of the program, with any configured addresses or none, does not
  -- panic, whatever the system answers, as long as the masks of the IPv4 addresses that it reports
  -- have at least four bytes; and the lists of networks are then sorted by kind.
  pub init_network-StaysFiled :
      (texts : List Text) → StaysFiled (init_network os texts initial_adapters)
  unfolding init_network
  init_network-StaysFiled [] = listen_list-StaysFiled os.interfaces initial_adapters start-IsFiled
  init_network-StaysFiled (text ∷ texts) =
      listen_configured-StaysFiled (text ∷ texts) initial_adapters start-IsFiled
