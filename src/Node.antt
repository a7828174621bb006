-- ===== src/Node.antt =====
-- The state of a running node (the package's variables) and what it is given from outside.
pub mod Peerlist
pub mod Sending
pub mod Commands
pub mod Worker
pub mod Bootstrap
pub mod Discovery
pub mod Start
pub mod Quiet
pub mod Run
pub mod Invariant
mod Tests
use peernet_core.Prelude.{
  ◌≡◌, refl, ℕ, suc, ◌+◌, ◌%◌, ◌^◌, Bool, true, false, List, [], ◌∷◌, ◌++◌, Option, none, some,
  String, arith, Outcome, ok, err, panic, if◌then◌else◌, ◌==◌,
}
use peernet_core.Ip.{Bytes}
use peernet_core.Crypto.{Crypto, Rand}
use peernet_core.Connection.{Store, PeerInfo, UdpAddr, Connection, update}
use peernet_core.Slice.{Slice}
use peernet_core.Network.{Adapters}

-- One `WriteTo` on a network's socket.
pub record Datagram : Type 0 where
  pub network : ℕ
  pub ip : Bytes
  pub port : ℕ
  pub raw : List ℕ

-- `K` is the type of public keys. Pointers are numbers; `next_connection` and `next_peer` are the
-- first that are not in use. `peer_list` is `peerList`, by compressed key. `wire` is all that was
-- handed to the sockets, oldest first; `draws` counts the calls that took random numbers.
pub record Node (K : Type 0) : Type 0 where
  pub connections : Store
  pub next_connection : ℕ
  pub peers : ℕ → PeerInfo K
  pub next_peer : ℕ
  pub peer_list : List (Bytes × ℕ)
  pub adapters : Adapters
  pub wire : List Datagram
  pub draws : ℕ

-- What the node runs against: its key pair, the public keys of IPv4 broadcast and IPv6 multicast,
-- which are nil until they are initialized, the random numbers of each draw, and what each write
-- to a socket returns, which may depend on all writes before it.
pub record World (c : Crypto) : Type 0 where
  pub private_key : Crypto.PrivateKey c
  pub public_key : Crypto.PublicKey c
  pub broadcast_key : Option (Crypto.PublicKey c)
  pub multicast_key : Option (Crypto.PublicKey c)
  pub rand : ℕ → Rand
  pub write_to : List Datagram → Datagram → Option String

-- A computation on the node; `none` is a panic, which ends the process.
abbrev pub M : Type 0 → Type 0 → Type 0
M K A = Node K → Option (A × Node K)

abbrev pub pure : {K A : Type 0} → A → M K A
pure a n = some (a, n)

infixl 5 ◌>>=◌ ◌>>◌
abbrev pub ◌>>=◌ : {K A B : Type 0} → M K A → (A → M K B) → M K B
◌>>=◌ m f n = elim (m n) [ none ↦ none | some (a, n') ↦ f a n' ]

abbrev pub ◌>>◌ : {K B : Type 0} → M K (Unit {0}) → M K B → M K B
m >> k = m >>= λ _. k

abbrev pub gets : {K A : Type 0} → (Node K → A) → M K A
gets f n = some (f n, n)

abbrev pub modify : {K : Type 0} → (Node K → Node K) → M K (Unit {0})
modify f n = some (tt, f n)

abbrev pub update_peer : {K : Type 0} → (ℕ → PeerInfo K) → ℕ → PeerInfo K → ℕ → PeerInfo K
update_peer h q p r = if r == q then p else h r

-- `network.address.IP` by pointer.
abbrev pub local_ip : {K : Type 0} → Node K → ℕ → Bytes
local_ip n k = (n.adapters.networks k).address.ip

-- A step that does not panic.
pub bind_step :
    {K A B : Type 0} (m : M K A) (f : A → M K B) (n : Node K) {a : A} {n' : Node K}
    → m n ≡ some (a, n')
    → (m >>= f) n ≡ f a n'
bind_step m f n e = rw (e, ◌>>=◌) refl

pub update_peer_self :
    {K : Type 0} (h : ℕ → PeerInfo K) (q : ℕ) (p : PeerInfo K) → update_peer h q p q ≡ p
update_peer_self h q p = ground arith
