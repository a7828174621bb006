-- ===== src/Network/Invariant/Listen.antt =====
-- Network Init.go: listening on an IP keeps the lists sorted by kind.
use peernet_core.Prelude.{
  ℕ, suc, ◌<◌, ◌≡◌, refl, sym, ap, ◌∙◌, subst, Bool, true, false, Option, none, some, String,
  Outcome, ok, err, panic, arith, ◌==◌, ==_iff, Bool-cases, inl, inr, if-both, ltb,
}
use peernet_core.Prelude.Int.{ℤ, pos, negsuc}
use peernet_core.Ip.{Bytes, is_ipv4}
use peernet_core.Slice.Array.{array-append}
use peernet_core.Connection.{UdpAddr}
use peernet_core.Network.{Adapters, Network, IpNet, System, Bound, failed, bound, set_network}
use peernet_core.Network.Discovery.Safe.{IsMasked, SystemMasked}
use peernet_core.Network.Listen.{
  bound_address, connect_port_try, try_random, auto_assign_port, add_network, start_discovery,
  found_network, started, listed,
}
use peernet_core.Network.Invariant.{
  IsFiled, Agrees, Agrees-refl, Agrees-trans, Agrees-IsFiled, others-Agrees,
}
use peernet_core.Network.Invariant.Discovery.{
  Fine, Any, Leaves, prepare_broadcast-Agrees, multicast_ipv6_join-Agrees,
}

-- The address that a network gets has the IP that was asked for.
abbrev pub HasIp : Bytes → UdpAddr → Type 0
HasIp ip address = address.ip ≡ ip

abbrev pub Assigned : Bytes → Adapters → Outcome UdpAddr × Adapters → Type 0
Assigned ip a (result, a') = Fine (HasIp ip) result × Agrees a a'

-- The network that was found for the IP.
abbrev pub FoundMasked : Option (String × IpNet) → Type 0
FoundMasked none = Unit {0}
FoundMasked (some (name, n)) = IsMasked n

abbrev pub FiledAfter : {A : Type 0} → Outcome A × Adapters → Type 0
FiledAfter (result, a) = Fine Any result × IsFiled a

module _ (os : System) where
  bound_address-Fine :
      (ip : Bytes) (port : ℕ) (b : Bound) → Fine (HasIp ip) (bound_address ip port b)
  unfolding bound_address
  bound_address-Fine ip port (failed e) = tt
  bound_address-Fine ip port (bound none) = if-both (Fine (HasIp ip)) (port == 0) tt refl
  bound_address-Fine ip port (bound (some p)) = if-both (Fine (HasIp ip)) (port == 0) refl refl

  connect_port_try-Assigned :
      (ip : Bytes) (port : ℕ) (a : Adapters) → Assigned ip a (connect_port_try os ip port a)
  unfolding connect_port_try
  connect_port_try-Assigned ip port a =
      (bound_address-Fine ip port (os.listen_udp a.binds ip port), others-Agrees a a.ips_listen _)

  try_random-Assigned :
      (ip : Bytes) (a : Adapters) (r : Outcome UdpAddr × Adapters)
      → Assigned ip a r
      → Assigned ip a (try_random os ip r)
  unfolding try_random
  try_random-Assigned ip a (ok address, a₁) h = h
  try_random-Assigned ip a (err e, a₁) h =
      let (fine, same) = connect_port_try-Assigned ip 0 a₁ in (fine, Agrees-trans a a₁ _ h.1 same)
  try_random-Assigned ip a (panic, a₁) h = h

  pub auto_assign_port-Assigned :
      (ip : Bytes) (port : ℤ) (a : Adapters) → Assigned ip a (auto_assign_port os ip port a)
  unfolding auto_assign_port
  auto_assign_port-Assigned ip (negsuc _) a = (tt, Agrees-refl a)
  auto_assign_port-Assigned ip (pos port) a =
      if-both (Assigned ip a) (ltb 65535 port) (tt, Agrees-refl a)
        (if-both (Assigned ip a) (port == 0)
          (try_random-Assigned ip a _ (connect_port_try-Assigned ip 112 a))
          (connect_port_try-Assigned ip port a))

  -- The networks that are listed already, when one more is put behind them.
  old_network :
      (a : Adapters) (v : Network) (d : ℕ) (kind : Bool)
      → (d < a.next_network) × (is_ipv4 (a.networks d).address.ip ≡ kind)
      → (d < suc a.next_network)
        × (is_ipv4 ((set_network a a.next_network v).networks d).address.ip ≡ kind)
  old_network a v d kind (lt, e) = elim (Bool-cases (d == a.next_network)) [
    | inl hit ↦ absurd (ground (arith, hit, lt))
    | inr miss ↦ (omega (arith, lt), rw miss e)
  ]

  the_new_network :
      (a : Adapters) (v : Network) → (set_network a a.next_network v).networks a.next_network ≡ v
  the_new_network a v = rw ((==_iff a.next_network a.next_network).1 refl) refl

  new_network_kind :
      (a : Adapters) (v : Network) (d : ℕ) (kind : Bool)
      → d ≡ a.next_network
      → is_ipv4 v.address.ip ≡ kind
      → (d < suc a.next_network)
        × (is_ipv4 ((set_network a a.next_network v).networks d).address.ip ≡ kind)
  new_network_kind a v d kind here e = (
    omega (arith, here),
    rw here (ap (λ (z : Network). is_ipv4 z.address.ip) (the_new_network a v) ∙ e),
  )

  -- A new network in the list of its kind.
  add_network-IsFiled :
      (ip : Bytes) (v : Network) (a : Adapters)
      → v.address.ip ≡ ip
      → IsFiled a
      → IsFiled (add_network os ip v a).1
  unfolding add_network
  add_network-IsFiled ip v a e filed = elim (Bool-cases (is_ipv4 ip)) [
    | inl v4 ↦ rw v4 (record {
      filed4 = λ d h. elim (array-append a.networks4 a.next_network d h) [
        | inl new ↦ new_network_kind a v d true new (ap is_ipv4 e ∙ v4)
        | inr old ↦ old_network a v d true (filed.filed4 d old)
      ];
      filed6 = λ d h. old_network a v d false (filed.filed6 d h);
    })
    | inr v6 ↦ rw v6 (record {
      filed4 = λ d h. old_network a v d true (filed.filed4 d h);
      filed6 = λ d h. elim (array-append a.networks6 a.next_network d h) [
        | inl new ↦ new_network_kind a v d false new (ap is_ipv4 e ∙ v6)
        | inr old ↦ old_network a v d false (filed.filed6 d old)
      ];
    })
  ]

  -- The new network is what the pointer then has.
  add_network-found :
      (ip : Bytes) (v : Network) (a : Adapters)
      → let (k, a') = add_network os ip v a in a'.networks k ≡ v
  unfolding add_network
  add_network-found ip v a = elim (Bool-cases (is_ipv4 ip)) [
    | inl v4 ↦ rw v4 (the_new_network a v)
    | inr v6 ↦ rw v6 (the_new_network a v)
  ]

  discovery-Leaves :
      (ip : Bytes) (k : ℕ) (a : Adapters)
      → SystemMasked os
      → ((n : IpNet) → (a.networks k).ipnet ≡ some n → IsMasked n)
      → Leaves a (start_discovery os ip k a)
  unfolding start_discovery
  discovery-Leaves ip k a system own =
      if-both (Leaves a) (is_ipv4 ip) (prepare_broadcast-Agrees os k a system own)
        (multicast_ipv6_join-Agrees os k a)

  found_network-address :
      (found : Option (String × IpNet)) (address : UdpAddr)
      → (found_network found address).address ≡ address
  unfolding found_network
  found_network-address none address = refl
  found_network-address (some (name, n)) address = refl

  found_network-IsMasked :
      (found : Option (String × IpNet)) (address : UdpAddr)
      → FoundMasked found
      → (n : IpNet) → (found_network found address).ipnet ≡ some n
      → IsMasked n
  unfolding found_network
  found_network-IsMasked none address masked n e = absurd (cc)
  found_network-IsMasked (some (name, x)) address masked n e =
      let same : x ≡ n = cc in subst IsMasked same masked

  started-Fine : (k : ℕ) (o : Outcome (Unit {0})) → Fine Any o → Fine Any (started k o)
  unfolding started
  started-Fine k (ok _) fine = tt
  started-Fine k (err e) fine = tt
  started-Fine k panic fine = fine

  pub listed-FiledAfter :
      (ip : Bytes) (found : Option (String × IpNet)) (a : Adapters) (r : Outcome UdpAddr × Adapters)
      → SystemMasked os
      → FoundMasked found
      → Assigned ip a r
      → IsFiled a
      → FiledAfter (listed os ip found r)
  unfolding listed
  listed-FiledAfter ip found a (err e, a₁) system masked (fine, same) filed =
      (tt, Agrees-IsFiled a a₁ same filed)
  listed-FiledAfter ip found a (panic, a₁) system masked (fine, same) filed = absurd (fine tt)
  listed-FiledAfter ip found a (ok address, a₁) system masked (fine, same) filed =
      let v = found_network found address in
      let (k, a₂) = add_network os ip v a₁ in
      let own = found_network-IsMasked found address masked in
      let (good, rest) =
        discovery-Leaves ip k a₂ system
          (λ n e. own n (sym (ap (λ (z : Network). z.ipnet) (add_network-found ip v a₁)) ∙ e)) in
      let address_ip = ap (λ (z : UdpAddr). z.ip) (found_network-address found address) ∙ fine in
      (
        started-Fine k _ good,
        Agrees-IsFiled a₂ _ rest
            (add_network-IsFiled ip v a₁ address_ip (Agrees-IsFiled a a₁ same filed)),
      )
