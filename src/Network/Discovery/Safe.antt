-- ===== src/Network/Discovery/Safe.antt =====
-- Network IPv4 Broadcast.go: no mask is too short, so that no broadcast address panics.
use peernet_core.Prelude.{
  ◌≤◌, ◌≡◌, refl, Bool, true, false, not, ◌||◌, List, [], ◌∷◌, length, Option, none, some, ◌++◌,
  Outcome, ok, ◌>>=◌, if◌then◌else◌, arith,
}
use peernet_core.Ip.{Bytes, to4, is_ipv4}
use peernet_core.Network.{IpNet, Interface, System}
use peernet_core.Network.Discovery.{
  contains, rfc3927_net, set_host_bits, fill_host, ipv4_directed_broadcast, directed_broadcasts,
  broadcast_nets, interface_broadcasts, network_to_ipv4_broadcast_ips, ipv4_bcast,
}

-- The mask of an IPv4 address has at least four bytes.
abbrev pub IsMasked : IpNet → Type 0
IsMasked n = (ip4 : Bytes) → to4 n.ip ≡ some ip4 → length ip4 ≤ length n.mask

abbrev pub AreMasked : List IpNet → Type 0
AreMasked [] = Unit {0}
AreMasked (n ∷ ns) = IsMasked n × AreMasked ns

abbrev pub HasMasked : Option (List IpNet) → Type 0
HasMasked none = Unit {0}
HasMasked (some ns) = AreMasked ns

abbrev pub InterfacesMasked : List Interface → Type 0
InterfacesMasked [] = Unit {0}
InterfacesMasked (i ∷ is) = HasMasked i.addrs × InterfacesMasked is

abbrev pub ListMasked : Option (List Interface) → Type 0
ListMasked none = Unit {0}
ListMasked (some is) = InterfacesMasked is

-- The masks of all IPv4 addresses that the system reports.
abbrev pub SystemMasked : System → Type 0
SystemMasked os = ListMasked os.interfaces

-- A computation that does not panic and has no error.
abbrev pub IsOk {ℓ} : {A : Type ℓ} → Outcome A → Type ℓ
IsOk {A = A} o = (a : A) × (o ≡ ok a)

fill_host-IsOk : (ip mask : Bytes) → length ip ≤ length mask → IsOk (fill_host ip mask)
unfolding fill_host
fill_host-IsOk [] mask h = ([], refl)
fill_host-IsOk (x ∷ xs) [] h = absurd (omega (arith, h))
fill_host-IsOk (x ∷ xs) (m ∷ ms) h =
    let (b, e) = fill_host-IsOk xs ms (omega (arith, h)) in (set_host_bits x m ∷ b, rw e refl)

bind-IsOk {ℓ κ} :
    {A : Type ℓ} {B : Type κ} (m : Outcome A) (f : A → Outcome B)
    → IsOk m
    → ((a : A) → IsOk (f a))
    → IsOk (m >>= f)
bind-IsOk m f (a, e) next = let (b, e') = next a in (b, rw (e, ◌>>=◌) e')

directed-IsOk : (n : IpNet) → IsMasked n → IsOk (ipv4_directed_broadcast n)
unfolding ipv4_directed_broadcast
directed-IsOk n h = go (to4 n.ip) h
  where
    go :
        (o : Option Bytes)
        → ((ip4 : Bytes) → o ≡ some ip4 → length ip4 ≤ length n.mask)
        → IsOk
            (elim o [ none ↦ ok none | some ip4 ↦ fill_host ip4 n.mask >>= λ last. ok (some last) ])
    go none h = (none, refl)
    go (some ip4) h =
        bind-IsOk (fill_host ip4 n.mask) _ (fill_host-IsOk ip4 n.mask (h ip4 refl))
          (λ last. (some last, refl))

directed_broadcasts-IsOk : (ns : List IpNet) → AreMasked ns → IsOk (directed_broadcasts ns)
unfolding directed_broadcasts
directed_broadcasts-IsOk [] h = ([], refl)
directed_broadcasts-IsOk (n ∷ ns) h =
    bind-IsOk (ipv4_directed_broadcast n) _ (directed-IsOk n h.0) (λ found.
      bind-IsOk (directed_broadcasts ns) _ (directed_broadcasts-IsOk ns h.1) (λ rest. (_, refl)))

if-AreMasked :
    (b : Bool) (xs ys : List IpNet) → AreMasked xs → AreMasked ys → AreMasked (if b then xs else ys)
if-AreMasked true xs ys hx hy = hx
if-AreMasked false xs ys hx hy = hy

broadcast_nets-AreMasked : (ns : List IpNet) → AreMasked ns → AreMasked (broadcast_nets ns)
unfolding broadcast_nets
broadcast_nets-AreMasked [] h = tt
broadcast_nets-AreMasked (n ∷ ns) h =
    let rest = broadcast_nets-AreMasked ns h.1 in
    if-AreMasked (not (is_ipv4 n.ip) || contains rfc3927_net n.ip) _ _ rest (h.0, rest)

interface_broadcasts-IsOk :
    (is : List Interface) → InterfacesMasked is → IsOk (interface_broadcasts is)
unfolding interface_broadcasts
interface_broadcasts-IsOk [] h = ([], refl)
interface_broadcasts-IsOk (i ∷ is) h = go (interface_broadcasts-IsOk is h.1) i.addrs h.0
  where
    go :
        IsOk (interface_broadcasts is)
        → (o : Option (List IpNet)) → HasMasked o
        → IsOk (elim o [
          | none ↦ interface_broadcasts is
          | some addresses ↦ directed_broadcasts (broadcast_nets addresses) >>= λ ips.
              interface_broadcasts is >>= λ rest. ok (ips ++ rest)
        ])
    go next none masked = next
    go next (some addresses) masked =
        bind-IsOk (directed_broadcasts (broadcast_nets addresses)) _
          (directed_broadcasts-IsOk (broadcast_nets addresses)
            (broadcast_nets-AreMasked addresses masked))
          (λ ips. bind-IsOk (interface_broadcasts is) _ next (λ rest. (_, refl)))

pub network_to_ipv4_broadcast_ips-IsOk :
    (os : System) (ipnet : Option IpNet)
    → SystemMasked os
    → ((n : IpNet) → ipnet ≡ some n → IsMasked n)
    → IsOk (network_to_ipv4_broadcast_ips os ipnet)
unfolding network_to_ipv4_broadcast_ips
network_to_ipv4_broadcast_ips-IsOk os (some n) system own =
    bind-IsOk (directed_broadcasts (n ∷ [])) _ (directed_broadcasts-IsOk (n ∷ []) (own n refl, tt))
      (λ rest. (_, refl))
network_to_ipv4_broadcast_ips-IsOk os none system own = go os.interfaces system
  where
    go :
        (o : Option (List Interface))
        → ListMasked o
        → IsOk (elim o [
          | none ↦ ok (ipv4_bcast ∷ [])
          | some list ↦ interface_broadcasts list >>= λ rest. ok (ipv4_bcast ∷ rest)
        ])
    go none masked = (_, refl)
    go (some list) masked =
        bind-IsOk (interface_broadcasts list) _ (interface_broadcasts-IsOk list masked)
          (λ rest. (_, refl))
