-- ===== src/Network/Invariant/Discovery.antt =====
-- The discovery files: preparing the discovery does not panic, and keeps the lists and the IPs.
use peernet_core.Prelude.{
  ℕ, ◌≡◌, refl, ap, ◌∙◌, true, not, List, [], ◌∷◌, Option, none, some, String, Outcome, ok, err,
  panic, if-both,
}
use peernet_core.Ip.{Bytes}
use peernet_core.Connection.{UdpAddr}
use peernet_core.Network.{Adapters, Network, IpNet, Interface, System, set_network}
use peernet_core.Network.Discovery.{
  prepare_broadcast, broadcast_opened, set_broadcasts, multicast_ipv6_join, multicast_opened,
  multicast_joined, join_groups, join_multicast_group, joined_group, join_all, join_listed,
  ipv6_multicast_group, ipv4_broadcast_port, ipv6_multicast_port,
}
use peernet_core.Network.Discovery.Safe.{
  IsMasked, SystemMasked, IsOk, network_to_ipv4_broadcast_ips-IsOk,
}
use peernet_core.Network.Invariant.{Agrees, Agrees-refl, Agrees-trans, set_network-Agrees}

-- An outcome that is no panic, with a good value if it has one.
abbrev pub Fine {ℓ} : {A : Type ℓ} → (A → Type 0) → Outcome A → Type 0
Fine P (ok a) = P a
Fine P (err e) = Unit {0}
Fine P panic = ¬ Unit {0}

abbrev pub Any {ℓ} : {A : Type ℓ} → A → Type 0
Any a = Unit {0}

-- A call that does not panic, and leaves the lists and the IPs as they are.
abbrev pub Leaves : Adapters → Outcome (Unit {0}) × Adapters → Type 0
Leaves a (result, a') = Fine Any result × Agrees a a'

module _ (os : System) where
  set_broadcasts-Agrees :
      (k : ℕ) (a : Adapters) (o : Outcome (List Bytes))
      → IsOk o
      → Leaves a (set_broadcasts os k a o)
  unfolding set_broadcasts
  set_broadcasts-Agrees k a o (ips, e) = rw e (tt, set_network-Agrees a k _ refl)

  broadcast_opened-Agrees :
      (k : ℕ) (a : Adapters) (error : Option String)
      → SystemMasked os
      → ((n : IpNet) → (a.networks k).ipnet ≡ some n → IsMasked n)
      → Leaves a (broadcast_opened os k a error)
  unfolding broadcast_opened
  broadcast_opened-Agrees k a (some e) system own = (tt, Agrees-refl a)
  broadcast_opened-Agrees k a none system own =
      let a₁ = set_network a k (record (a.networks k) { broadcast_socket = true }) in
      let (fine, same) =
        set_broadcasts-Agrees k a₁ _
          (network_to_ipv4_broadcast_ips-IsOk os (a.networks k).ipnet system own) in
      (fine, Agrees-trans a a₁ _ (set_network-Agrees a k _ refl) same)

  pub prepare_broadcast-Agrees :
      (k : ℕ) (a : Adapters)
      → SystemMasked os
      → ((n : IpNet) → (a.networks k).ipnet ≡ some n → IsMasked n)
      → Leaves a (prepare_broadcast os k a)
  unfolding prepare_broadcast
  prepare_broadcast-Agrees k a system own =
      if-both (Leaves a) (not os.broadcast_keys) (tt, Agrees-refl a)
        (broadcast_opened-Agrees k a
          (os.listen_packet (a.networks k).address.ip ipv4_broadcast_port) system own)

  -- Joining keeps the network's address.
  joined_group-address :
      (iface : String) (v : Network) (error : Option String)
      → (joined_group os iface v error).1.address ≡ v.address
  unfolding joined_group
  joined_group-address iface v none = refl
  joined_group-address iface v (some e) = refl

  join_all-address : (is : List Interface) (v : Network) → (join_all os is v).address ≡ v.address
  unfolding join_all join_multicast_group
  join_all-address [] v = refl
  join_all-address (i ∷ is) v =
      join_all-address is _ ∙ joined_group-address i.name v (os.join_group i.name v.multicast_ip)

  join_groups-address :
      (iface : Option String) (v : Network) → (join_groups os iface v).1.address ≡ v.address
  unfolding join_groups join_multicast_group join_listed
  join_groups-address (some iface) v =
      joined_group-address iface v (os.join_group iface v.multicast_ip)
  join_groups-address none v = go os.interfaces
    where
      go : (o : Option (List Interface)) → (join_listed os o v).1.address ≡ v.address
      go none = refl
      go (some list) = join_all-address list v

  multicast_joined-address :
      (r : Option String × Network)
      → let (result, v) = multicast_joined os r in Fine Any result × (v.address ≡ r.1.address)
  unfolding multicast_joined
  multicast_joined-address (none, v) = (tt, refl)
  multicast_joined-address (some e, v) = (tt, refl)

  multicast_opened-address :
      (v : Network) (error : Option String)
      → let (result, v') = multicast_opened os v error in Fine Any result × (v'.address ≡ v.address)
  unfolding multicast_opened
  multicast_opened-address v (some e) = (tt, refl)
  multicast_opened-address v none =
      let opened = record v { multicast_socket = true } in
      let (fine, same) = multicast_joined-address (join_groups os v.iface opened) in
      (fine, same ∙ join_groups-address v.iface opened)

  pub multicast_ipv6_join-Agrees : (k : ℕ) (a : Adapters) → Leaves a (multicast_ipv6_join os k a)
  unfolding multicast_ipv6_join
  multicast_ipv6_join-Agrees k a =
      let v = record (a.networks k) { multicast_ip = ipv6_multicast_group } in
      let (fine, same) =
        multicast_opened-address v (os.listen_packet v.address.ip ipv6_multicast_port) in
      if-both (Leaves a) (not os.multicast_keys) (tt, Agrees-refl a)
        (fine, set_network-Agrees a k _ (ap (λ (x : UdpAddr). x.ip) same))
