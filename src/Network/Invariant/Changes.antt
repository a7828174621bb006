-- ===== src/Network/Invariant/Changes.antt =====
-- Network Detection.go: a round of the change monitor does not panic, and keeps the lists of
-- networks sorted by kind.
use peernet_core.Prelude.{
  ℕ, zero, suc, ◌≡◌, refl, Bool, true, false, List, [], ◌∷◌, Option, none, some, String, get_elem?,
  if-both, Option-cases, inl, inr,
}
use peernet_core.Slice.{Slice, remove_at}
use peernet_core.Slice.Pointers.{has}
use peernet_core.Slice.Array.{array-remove_at}
use peernet_core.Network.{Network, Adapters, IpNet, Interface, System, terminate}
use peernet_core.Network.Discovery.Safe.{SystemMasked}
use peernet_core.Network.Changes.{
  is_on_interface, is_on_ip, remove_loop, remove_networks, network_change_interface_remove,
  network_change_ip_remove, is_in, lookup_iface, set_iface, add_ips, remove_ips, check_interface,
  check_interfaces, remove_interfaces, finish_round, check_list, change_monitor,
}
use peernet_core.Network.Invariant.{
  IsFiled, Agrees, Agrees-refl, Agrees-trans, Agrees-IsFiled, terminate-Agrees,
}
use peernet_core.Network.Invariant.Start.{StaysFiled, next-StaysFiled, network_start-StaysFiled}

module _ (test : Network → Bool) where
  -- The loop only terminates networks and takes pointers out of the list that it is given.
  Cut : Adapters → Slice → Adapters × Slice → Type 0
  Cut a s (a', s') = Agrees a a' × ((k : ℕ) → has k s'.array ≡ true → has k s.array ≡ true)

  terminated-Cut :
      (n k count : ℕ) (a : Adapters) (s : Slice)
      → let r = remove_loop test (suc n) count (terminate k a) (remove_at s n) in
        Cut (terminate k a) (remove_at s n) r → Cut a s r
  unfolding Cut
  terminated-Cut n k count a s (same, sub) = (
    Agrees-trans a (terminate k a) _ (terminate-Agrees k a) same,
    λ d h. array-remove_at s n d (sub d h),
  )

  if-Cut :
      (a : Adapters) (s : Slice) (b : Bool) (x y : Adapters × Slice)
      → Cut a s x
      → Cut a s y
      → Cut a s (elim b [ true ↦ x | false ↦ y ])
  if-Cut a s true x y h k = h
  if-Cut a s false x y h k = k

  remove_loop-Cut :
      (n count : ℕ) (a : Adapters) (s : Slice) → Cut a s (remove_loop test n count a s)
  unfolding remove_loop Cut
  remove_loop-Cut n zero a s = (Agrees-refl a, λ k h. h)
  remove_loop-Cut n (suc count) a s =
      go (λ (i : ℕ) b t. remove_loop-Cut i count b t) (get_elem? s.array n)
    where
      go :
          ((i : ℕ) (b : Adapters) (t : Slice) → Cut b t (remove_loop test i count b t))
          → (o : Option ℕ)
          → Cut a s (elim o [
            | none ↦ remove_loop test (suc n) count a s
            | some k ↦ elim (test (a.networks k)) [
              | true ↦ remove_loop test (suc n) count (terminate k a) (remove_at s n)
              | false ↦ remove_loop test (suc n) count a s
            ]
          ])
      go rest none = rest (suc n) a s
      go rest (some k) =
          if-Cut a s (test (a.networks k)) _ _
            (terminated-Cut n k count a s (rest (suc n) (terminate k a) (remove_at s n)))
            (rest (suc n) a s)

  remove_networks-IsFiled : (a : Adapters) → IsFiled a → IsFiled (remove_networks test a)
  unfolding remove_networks Cut
  remove_networks-IsFiled a filed =
      let (a₁, list6) = remove_loop test 0 a.networks6.len a a.networks6 in
      let (same6, sub6) = remove_loop-Cut 0 a.networks6.len a a.networks6 in
      let a₂ = record a₁ { networks6 = list6 } in
      let (same4, sub4) = remove_loop-Cut 0 a₂.networks4.len a₂ a₂.networks4 in
      Agrees-IsFiled a _
        (Agrees-trans a a₂ _
          (record {
            next_same = same6.next_same;
            ip_same = same6.ip_same;
            only4 = same6.only4;
            only6 = sub6;
          })
          (record {
            next_same = same4.next_same;
            ip_same = same4.ip_same;
            only4 = sub4;
            only6 = same4.only6;
          }))
        filed

-- Removing an interface or an address.
removed-IsFiled :
    (name : String) (a : Adapters) → IsFiled a → IsFiled (network_change_interface_remove name a)
unfolding network_change_interface_remove
removed-IsFiled name a filed = remove_networks-IsFiled (is_on_interface name) a filed

remove_ips-IsFiled :
    (present exist : List IpNet) (a : Adapters) → IsFiled a → IsFiled (remove_ips present exist a)
unfolding remove_ips network_change_ip_remove
remove_ips-IsFiled present [] a filed = filed
remove_ips-IsFiled present (x ∷ xs) a filed =
    remove_ips-IsFiled present xs _
      (if-both IsFiled (is_in x present) filed (remove_networks-IsFiled (is_on_ip x.ip) a filed))

remove_interfaces-IsFiled :
    (new exist : List (String × List IpNet)) (a : Adapters)
    → IsFiled a
    → IsFiled (remove_interfaces new exist a)
unfolding remove_interfaces
remove_interfaces-IsFiled new [] a filed = filed
remove_interfaces-IsFiled new ((name, _) ∷ exist) a filed =
    remove_interfaces-IsFiled new exist _ (go (lookup_iface name new))
  where
    go :
        (o : Option (List IpNet))
        → IsFiled (elim o [ some _ ↦ a | none ↦ network_change_interface_remove name a ])
    go none = removed-IsFiled name a filed
    go (some _) = filed

module _ (os : System) (system : SystemMasked os) where
  add_ips-StaysFiled :
      (exist xs : List IpNet) (a : Adapters) → IsFiled a → StaysFiled (add_ips os exist xs a)
  unfolding add_ips
  add_ips-StaysFiled exist [] a filed = (a, refl, filed)
  add_ips-StaysFiled exist (x ∷ xs) a filed =
      next-StaysFiled _ _
        (if-both StaysFiled (is_in x exist) (a, refl, filed)
          (network_start-StaysFiled os (x ∷ []) a system filed))
        (λ a₁ filed₁. add_ips-StaysFiled exist xs a₁ filed₁)

  check_interface-StaysFiled :
      (present : List IpNet) (known : Option (List IpNet)) (a : Adapters)
      → IsFiled a
      → StaysFiled (check_interface os present known a)
  unfolding check_interface
  check_interface-StaysFiled present none a filed =
      network_start-StaysFiled os present a system filed
  check_interface-StaysFiled present (some exist) a filed =
      let (a₁, e, filed₁) = add_ips-StaysFiled exist present a filed in
      (_, rw e refl, remove_ips-IsFiled present exist a₁ filed₁)

  check_interfaces-Filed :
      (is : List Interface) (new : List (String × List IpNet)) (a : Adapters)
      → IsFiled a
      → (a' : Adapters) × (found : List (String × List IpNet)) × (check_interfaces os is new a
          ≡ some (a', found))
        × IsFiled a'
  unfolding check_interfaces
  check_interfaces-Filed [] new a filed = (a, new, refl, filed)
  check_interfaces-Filed (i ∷ is) new a filed = elim (Option-cases i.addrs) [
    | inl e ↦ rw (e, check_interfaces) (check_interfaces-Filed is new a filed)
    | inr (present, e) ↦
        let (a₁, done, filed₁) =
          check_interface-StaysFiled present (lookup_iface i.name a.ifaces_exist) a filed in
        rw (e, check_interfaces, done)
          (check_interfaces-Filed is (set_iface i.name present new) a₁ filed₁)
  ]

  finish_round-IsFiled :
      (r : Adapters × List (String × List IpNet)) → IsFiled r.0 → IsFiled (finish_round os r)
  unfolding finish_round
  finish_round-IsFiled (a, new) filed =
      let done = remove_interfaces-IsFiled new a.ifaces_exist a filed in
      record { filed4 = done.filed4; filed6 = done.filed6 }

  check_list-StaysFiled :
      (list : Option (List Interface)) (a : Adapters)
      → IsFiled a
      → StaysFiled (check_list os list a)
  unfolding check_list
  check_list-StaysFiled none a filed = (a, refl, filed)
  check_list-StaysFiled (some list) a filed =
      let (a₁, new, done, filed₁) = check_interfaces-Filed list [] a filed in
      (_, rw done refl, finish_round-IsFiled (a₁, new) filed₁)

  -- A round of `networkChangeMonitor` does not panic, whatever the system answers, as long as the
  -- masks of the IPv4 addresses that it reports have at least four bytes; and it keeps the lists of
  -- networks sorted by kind: all networks in the array of `networks4` have an IPv4 address, all in
  -- that of `networks6` none, and all are in use.
  pub change_monitor-StaysFiled : (a : Adapters) → IsFiled a → StaysFiled (change_monitor os a)
  unfolding change_monitor
  change_monitor-StaysFiled a filed = check_list-StaysFiled os.interfaces a filed
