-- ===== src/Node/Bootstrap/Laws.antt =====
-- Bootstrap.go: how the bootstrap ends.
use peernet_core.Prelude.{ℕ, suc, ◌≡◌, Bool, List, [], ◌∷◌, map, length, Option, none, some, arith}
use peernet_core.Crypto.{Crypto}
use peernet_core.Connection.{UdpAddr}
use peernet_core.Node.{Node, World, M, pure}
use peernet_core.Node.Quiet.{IsQuiet, bind-IsQuiet, pure-IsQuiet}
use peernet_core.Node.Sending.{send_all_networks}
use peernet_core.Node.Sending.Quiet.{send_all_networks-IsQuiet}
use peernet_core.Node.Commands.{plain, command_announcement}
use peernet_core.Node.Bootstrap.{RootPeer, is_enough, contact, contact_root_peers}

-- A computation that does not panic.
abbrev pub Returns : {K A : Type 0} → M K A → Type 0
Returns {K} {A} m = (n : Node K) → (a : A) × (n' : Node K) × (m n ≡ some (a, n'))

-- How many root peers have been connected.
abbrev pub connected : {K : Type 0} → List (RootPeer K) → ℕ
connected [] = 0
connected (r ∷ rs) = elim r.peer [ none ↦ connected rs | some _ ↦ suc (connected rs) ]

module _ (c : Crypto) (w : World c) where
  open c use {PublicKey}

  contact-IsQuiet :
      (receiver : PublicKey) (addresses : List UdpAddr) → IsQuiet (contact c w receiver addresses)
  unfolding contact
  contact-IsQuiet receiver [] = pure-IsQuiet tt
  contact-IsQuiet receiver (x ∷ xs) =
      bind-IsQuiet (send_all_networks c w receiver (plain command_announcement) x) _
        (send_all_networks-IsQuiet c w receiver (plain command_announcement) x (omega arith))
        (λ _. contact-IsQuiet receiver xs)

  contact_one-IsQuiet :
      (peer : Option ℕ) (receiver : PublicKey) (addresses : List UdpAddr)
      → IsQuiet {K = PublicKey}
          (elim peer [ none ↦ contact c w receiver addresses | some _ ↦ pure tt ])
  contact_one-IsQuiet none receiver addresses = contact-IsQuiet receiver addresses
  contact_one-IsQuiet (some q) receiver addresses = pure-IsQuiet tt

  pub contact_root_peers-IsQuiet :
      (roots : List (RootPeer PublicKey)) → IsQuiet (contact_root_peers c w roots)
  unfolding contact_root_peers
  contact_root_peers-IsQuiet [] = pure-IsQuiet tt
  contact_root_peers-IsQuiet (r ∷ rs) =
      bind-IsQuiet (elim r.peer [ none ↦ contact c w r.public_key r.addresses | some _ ↦ pure tt ])
        _ (contact_one-IsQuiet r.peer r.public_key r.addresses) (λ _. contact_root_peers-IsQuiet rs)

  module _ (meanwhile : ℕ → M PublicKey (Unit {0}))
      (returns : (k : ℕ) → Returns (meanwhile k)) where
    -- The outcome of a phase: it returns, keeps the root peers' keys, and its answer is that of
    -- the test on how many are connected.
    abbrev pub Ends :
        List (RootPeer PublicKey)
        → Option ((Bool × List (RootPeer PublicKey)) × Node PublicKey)
        → Type 0
    Ends roots r =
        (done : Bool) × (found : List (RootPeer PublicKey)) × (n' : Node PublicKey) × (r
          ≡ some ((done, found), n'))
        × (done ≡ is_enough (connected found) (length found))
        × (map (λ r. r.public_key) found ≡ map (λ r. r.public_key) roots)
