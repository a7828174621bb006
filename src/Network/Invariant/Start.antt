-- ===== src/Network/Invariant/Start.antt =====
-- Network Init.go: starting the listeners on a list of IPs.
use peernet_core.Prelude.{
  ℕ, ◌≡◌, refl, subst, Bool, true, false, List, [], ◌∷◌, Option, none, some, String, Outcome, ok,
  err, panic, arith, Bool-cases, Option-cases, inl, inr, if-both,
}
use peernet_core.Prelude.Int.{ℤ, pos}
use peernet_core.Ip.{Bytes, is_loopback, to16, ip_equal}
use peernet_core.Network.{Adapters, IpNet, Interface, System, add_listen_address}
use peernet_core.Network.Discovery.Safe.{
  IsMasked, AreMasked, HasMasked, InterfacesMasked, ListMasked, SystemMasked,
}
use peernet_core.Network.Listen.{
  auto_assign_port, listen_on, network_prepare_listen, listening, start_address, network_start,
  listen_found, found_or, find_in_list, find_address, find_in_interfaces, find_interface_by_ip,
}
use peernet_core.Network.Invariant.{IsFiled, Agrees-IsFiled, others-Agrees}
use peernet_core.Network.Invariant.Listen.{
  FoundMasked, FiledAfter, listed-FiledAfter, auto_assign_port-Assigned,
}

-- A step that returns and keeps the lists sorted by kind.
abbrev pub StaysFiled : Option Adapters → Type 0
StaysFiled r = (a' : Adapters) × (r ≡ some a') × IsFiled a'

-- One step after another.
pub next-StaysFiled :
    (r : Option Adapters) (f : Adapters → Option Adapters)
    → StaysFiled r
    → ((a : Adapters) → IsFiled a → StaysFiled (f a))
    → StaysFiled (elim r [ none ↦ none | some a ↦ f a ])
next-StaysFiled none f (a, e, filed) next = absurd (cc)
next-StaysFiled (some b) f (a, e, filed) next =
    let same : a ≡ b = cc in next b (subst IsFiled same filed)

module _ (os : System) where
  find_address-FoundMasked :
      (ip : Bytes) (name : String) (ns : List IpNet) (n : IpNet)
      → AreMasked ns
      → find_address ip ns ≡ some n
      → IsMasked n
  unfolding find_address
  find_address-FoundMasked ip name [] n masked e = absurd (cc)
  find_address-FoundMasked ip name (x ∷ xs) n masked e = elim (Bool-cases (ip_equal x.ip ip)) [
    | inl hit ↦ let same : x ≡ n = ground (arith, hit, e) in subst IsMasked same masked.0
    | inr miss ↦ find_address-FoundMasked ip name xs n masked.1 (ground (arith, miss, e))
  ]

  found_or-FoundMasked :
      (ip : Bytes) (name : String) (ns : List IpNet) (rest : Option (String × IpNet))
      → AreMasked ns
      → FoundMasked rest
      → FoundMasked (found_or name (find_address ip ns) rest)
  unfolding found_or
  found_or-FoundMasked ip name ns rest masked more = elim (Option-cases (find_address ip ns)) [
    | inl e ↦ rw e more
    | inr (n, e) ↦ rw e (find_address-FoundMasked ip name ns n masked e)
  ]

  find_in_interfaces-FoundMasked :
      (ip : Bytes) (is : List Interface)
      → InterfacesMasked is
      → FoundMasked (find_in_interfaces ip is)
  unfolding find_in_interfaces
  find_in_interfaces-FoundMasked ip [] masked = tt
  find_in_interfaces-FoundMasked ip (i ∷ is) masked =
      go (find_in_interfaces-FoundMasked ip is masked.1) i.addrs masked.0
    where
      go :
          FoundMasked (find_in_interfaces ip is)
          → (o : Option (List IpNet)) → HasMasked o
          → FoundMasked (elim o [
            | none ↦ find_in_interfaces ip is
            | some addresses ↦
                found_or i.name (find_address ip addresses) (find_in_interfaces ip is)
          ])
      go rest none h = rest
      go rest (some addresses) h = found_or-FoundMasked ip i.name addresses _ h rest

  find_in_list-FoundMasked :
      (ip : Bytes) (list : Option (List Interface))
      → ListMasked list
      → FoundMasked (find_in_list ip list)
  unfolding find_in_list
  find_in_list-FoundMasked ip none masked = tt
  find_in_list-FoundMasked ip (some list) masked = find_in_interfaces-FoundMasked ip list masked

  listen_found-FiledAfter :
      (ip : Bytes) (port : ℤ) (found : Option (String × IpNet)) (a : Adapters)
      → SystemMasked os
      → FoundMasked found
      → IsFiled a
      → FiledAfter (listen_found os ip port found a)
  unfolding listen_found listen_on
  listen_found-FiledAfter ip port none a system masked filed = (tt, filed)
  listen_found-FiledAfter ip port (some found) a system masked filed =
      listed-FiledAfter os ip (some found) a (auto_assign_port os ip port a) system masked
        (auto_assign_port-Assigned os ip port a) filed

  pub network_prepare_listen-FiledAfter :
      (ip : Option Bytes) (wildcard : Bool) (port : ℤ) (a : Adapters)
      → SystemMasked os
      → IsFiled a
      → FiledAfter (network_prepare_listen os ip wildcard port a)
  unfolding find_interface_by_ip network_prepare_listen listen_on
  network_prepare_listen-FiledAfter none wildcard port a system filed = (tt, filed)
  network_prepare_listen-FiledAfter (some ip) true port a system filed =
      listed-FiledAfter os ip none a (auto_assign_port os ip port a) system tt
        (auto_assign_port-Assigned os ip port a) filed
  network_prepare_listen-FiledAfter (some ip) false port a system filed =
      listen_found-FiledAfter ip port (find_interface_by_ip os ip) a system
        (find_in_list-FoundMasked ip os.interfaces system) filed

  pub listening-StaysFiled : (r : Outcome ℕ × Adapters) → FiledAfter r → StaysFiled (listening os r)
  unfolding listening add_listen_address
  listening-StaysFiled (err e, a) (fine, filed) = (a, refl, filed)
  listening-StaysFiled (panic, a) (fine, filed) = absurd (fine tt)
  listening-StaysFiled (ok k, a) (fine, filed) =
      (_, refl, Agrees-IsFiled a _ (others-Agrees a _ a.binds) filed)

  start_address-StaysFiled :
      (ip : Bytes) (a : Adapters) → SystemMasked os → IsFiled a → StaysFiled (start_address os ip a)
  unfolding start_address
  start_address-StaysFiled ip a system filed =
      if-both StaysFiled (is_loopback ip) (a, refl, filed)
        (listening-StaysFiled _
          (network_prepare_listen-FiledAfter (to16 ip) _ (pos 0) a system filed))

  -- `networkStart` on any addresses does not panic, whatever the system answers, as long as the
  -- masks of the IPv4 addresses that it reports have at least four bytes; and it keeps the lists of
  -- networks sorted by kind.
  pub network_start-StaysFiled :
      (addresses : List IpNet) (a : Adapters)
      → SystemMasked os
      → IsFiled a
      → StaysFiled (network_start os addresses a)
  unfolding network_start
  network_start-StaysFiled [] a system filed = (a, refl, filed)
  network_start-StaysFiled (x ∷ xs) a system filed =
      next-StaysFiled (start_address os x.ip a) _ (start_address-StaysFiled x.ip a system filed)
        (λ a₁ filed₁. network_start-StaysFiled xs a₁ system filed₁)
