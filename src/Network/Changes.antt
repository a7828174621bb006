-- ===== src/Network/Changes.antt =====
-- Network Detection.go: what is done when interfaces or addresses come and go.
pub mod Laws
use mathlib.Core.Option
use peernet_core.Prelude.{
  ℕ, zero, suc, Bool, true, false, not, List, [], ◌∷◌, Option, none, some, String, if◌then◌else◌,
  get_elem?, ◌==◌, ◌&&◌, length, drop,
}
use peernet_core.Prelude.Text.{same_text}
use peernet_core.Ip.{Bytes, ip_equal, bytes_equal, to4}
use peernet_core.Slice.{Slice, remove_at}
use peernet_core.Network.{Network, Adapters, IpNet, Interface, System, number_and_mask, terminate}
use peernet_core.Network.Listen.{network_start}

-- The test of `networkChangeInterfaceRemove`.
abbrev pub is_on_interface : String → Network → Bool
is_on_interface name network = elim network.iface [
  | none ↦ false
  | some iface ↦ same_text iface name
]

-- The test of `networkChangeIPRemove`.
abbrev pub is_on_ip : Bytes → Network → Bool
is_on_ip ip network = ip_equal network.address.ip ip

module _ (test : Network → Bool) where
  -- `for n, network := range networks6 {…}`: `count` more elements, from `n`. The range is over the
  -- list as it was, so over its length then; the elements are read from the array, in which the
  -- removals have moved them; the removal is from the list as it is now.
  unfoldable pub remove_loop : ℕ → ℕ → Adapters → Slice → Adapters × Slice
  remove_loop n zero a s = (a, s)
  remove_loop n (suc count) a s = elim (get_elem? s.array n) [
    | none ↦ remove_loop (suc n) count a s
    | some k ↦ elim (test (a.networks k)) [
      | true ↦ remove_loop (suc n) count (terminate k a) (remove_at s n)
      | false ↦ remove_loop (suc n) count a s
    ]
  ]

  -- The two loops, over `networks6` and `networks4`.
  unfoldable pub remove_networks : Adapters → Adapters
  remove_networks a =
      let (a₁, list6) = remove_loop 0 a.networks6.len a a.networks6 in
      let a₂ = record a₁ { networks6 = list6 } in
      let (a₃, list4) = remove_loop 0 a₂.networks4.len a₂ a₂.networks4 in
      record a₃ { networks4 = list4 }

unfoldable pub network_change_interface_remove : String → Adapters → Adapters
network_change_interface_remove name a = remove_networks (is_on_interface name) a

unfoldable pub network_change_ip_remove : IpNet → Adapters → Adapters
network_change_ip_remove address a = remove_networks (is_on_ip address.ip) a

-- What `net.IPNet.String` prints is the number and the mask, or "<nil>".
abbrev same_number : Option (Bytes × Bytes) → Option (Bytes × Bytes) → Bool
same_number none none = true
same_number none (some _) = false
same_number (some _) none = false
same_number (some (a, m)) (some (b, k)) = bytes_equal a b && bytes_equal m k

-- `exist.String() == addr.String()` for some address of the list.
pub is_in : IpNet → List IpNet → Bool
is_in x [] = false
is_in x (y ∷ ys) =
    let rest = is_in x ys in
    if same_number (number_and_mask x) (number_and_mask y) then true else rest

pub lookup_iface : String → List (String × List IpNet) → Option (List IpNet)
lookup_iface name [] = none
lookup_iface name ((x, addresses) ∷ m) =
    let rest = lookup_iface name m in if same_text x name then some addresses else rest

pub set_iface : String → List IpNet → List (String × List IpNet) → List (String × List IpNet)
set_iface name addresses [] = (name, addresses) ∷ []
set_iface name addresses ((x, old) ∷ m) =
    let rest = set_iface name addresses m in
    if same_text x name then (name, addresses) ∷ m else (x, old) ∷ rest

-- The addresses that an interface no longer has.
unfoldable pub remove_ips : List IpNet → List IpNet → Adapters → Adapters
remove_ips present [] a = a
remove_ips present (x ∷ xs) a =
    remove_ips present xs (if is_in x present then a else network_change_ip_remove x a)

-- The interfaces that are gone.
unfoldable pub remove_interfaces :
    List (String × List IpNet) → List (String × List IpNet) → Adapters → Adapters
remove_interfaces new [] a = a
remove_interfaces new ((name, _) ∷ exist) a =
    remove_interfaces new exist
      (elim (lookup_iface name new) [ some _ ↦ a | none ↦ network_change_interface_remove name a ])

module _ (os : System) where
  -- `networkChangeInterfaceNew`, and `networkChangeIPNew` with one address. From here on `none` is
  -- a panic.
  abbrev network_change_new : List IpNet → Adapters → Option Adapters
  network_change_new addresses a = network_start os addresses a

  -- The addresses that the interface did not have.
  unfoldable pub add_ips : List IpNet → List IpNet → Adapters → Option Adapters
  add_ips exist [] a = some a
  add_ips exist (x ∷ xs) a =
      elim (if is_in x exist then some a else network_change_new (x ∷ []) a) [
        | none ↦ none
        | some a₁ ↦ add_ips exist xs a₁
      ]

  -- An interface, by what is known of it.
  unfoldable pub check_interface : List IpNet → Option (List IpNet) → Adapters → Option Adapters
  check_interface present none a = network_change_new present a
  check_interface present (some exist) a =
      Option.map (remove_ips present exist) (add_ips exist present a)

  -- The loop over the interfaces, with the map `ifacesNew`.
  unfoldable pub check_interfaces :
      List Interface
      → List (String × List IpNet)
      → Adapters
      → Option (Adapters × List (String × List IpNet))
  check_interfaces [] new a = some (a, new)
  check_interfaces (i ∷ is) new a = elim i.addrs [
    | none ↦ check_interfaces is new a
    | some present ↦ elim (check_interface present (lookup_iface i.name a.ifaces_exist) a) [
      | none ↦ none
      | some a₁ ↦ check_interfaces is (set_iface i.name present new) a₁
    ]
  ]

  -- The interfaces that are gone are removed, and the new map is stored.
  unfoldable pub finish_round : Adapters × List (String × List IpNet) → Adapters
  finish_round (a, new) = record (remove_interfaces new a.ifaces_exist a) { ifaces_exist = new }

  unfoldable pub check_list : Option (List Interface) → Adapters → Option Adapters
  check_list none a = some a
  check_list (some list) a = Option.map finish_round (check_interfaces list [] a)

  -- One round of `networkChangeMonitor`, which the code repeats every ten seconds for ever, unless
  -- the addresses to listen on are in the configuration.
  unfoldable pub change_monitor : Adapters → Option Adapters
  change_monitor a = check_list os.interfaces a
