-- ===== src/Node/Bootstrap.antt =====
-- Bootstrap.go: contacting the root peers of the seed list.
pub mod Laws
pub mod Seeds
use peernet_core.Prelude.{
  ℕ, zero, suc, ◌*◌, ◌/◌, Bool, true, false, ◌||◌, List, [], ◌∷◌, Option, none, some, String,
  if◌then◌else◌, ◌==◌, leb, length,
}
use peernet_core.Crypto.{Crypto}
use peernet_core.Connection.{UdpAddr}
use peernet_core.Node.{Node, World, M, pure, ◌>>=◌, ◌>>◌, gets}
use peernet_core.Node.Peerlist.{peerlist_lookup}
use peernet_core.Node.Sending.{send_all_networks}
use peernet_core.Node.Commands.{plain, command_announcement}

-- `rootPeer`; the values of the map `rootPeers` are a list, in any order.
pub record RootPeer (K : Type 0) : Type 0 where
  pub peer : Option ℕ
  pub public_key : K
  pub addresses : List UdpAddr

-- The tests on the number of root peers that are connected.
abbrev pub is_enough : ℕ → ℕ → Bool
is_enough connected total = (connected == total) || leb 2 connected

-- Ten minutes by rounds of seven seconds, then an hour by rounds of five minutes.
abbrev pub rounds1 : ℕ
rounds1 = 10 * 60 / 7

abbrev pub rounds2 : ℕ
rounds2 = 1 * 60 / 5

module _ (c : Crypto) (w : World c) where
  open c use {PublicKey}

  -- `contact`: all addresses, on all networks; errors are not looked at.
  unfoldable pub contact : PublicKey → List UdpAddr → M PublicKey (Unit {0})
  contact receiver [] = pure tt
  contact receiver (address ∷ addresses) = do
    _ ← send_all_networks c w receiver (plain command_announcement) address
    contact receiver addresses

  -- `contactRootPeers`
  unfoldable pub contact_root_peers : List (RootPeer PublicKey) → M PublicKey (Unit {0})
  contact_root_peers [] = pure tt
  contact_root_peers (r ∷ rs) = do
    elim r.peer [ none ↦ contact r.public_key r.addresses | some _ ↦ pure tt ]
    contact_root_peers rs

  -- `countConnectedRootPeers`: the count, and the root peers with those that were found.
  unfoldable pub count_connected :
      List (RootPeer PublicKey) → Node PublicKey → ℕ × List (RootPeer PublicKey)
  count_connected [] n = (0, [])
  count_connected (r ∷ rs) n =
      let (count, found) = count_connected rs n in
      elim r.peer [
        | some _ ↦ (suc count, r ∷ found)
        | none ↦ elim (peerlist_lookup c n r.public_key) [
          | none ↦ (count, r ∷ found)
          | some q ↦ (suc count, record r { peer = some q } ∷ found)
        ]
      ]

  -- What the other goroutines do while `bootstrap` sleeps, by the number of rounds left.
  module _ (meanwhile : ℕ → M PublicKey (Unit {0})) where
    -- The loop of phase 1: whether it returns, and the root peers.
    unfoldable pub phase1 :
        ℕ → List (RootPeer PublicKey) → M PublicKey (Bool × List (RootPeer PublicKey))
    phase1 zero roots = pure (false, roots)
    phase1 (suc rounds) roots = do
      meanwhile rounds
      (connected, found) ← gets (count_connected roots)
      if is_enough connected (length found)
          then pure (true, found)
          else contact_root_peers found >> phase1 rounds found

    -- The loop of phase 2.
    unfoldable pub phase2 :
        ℕ → List (RootPeer PublicKey) → M PublicKey (Bool × List (RootPeer PublicKey))
    phase2 zero roots = pure (false, roots)
    phase2 (suc rounds) roots = do
      meanwhile rounds
      contact_root_peers roots
      (connected, found) ← gets (count_connected roots)
      if is_enough connected (length found) then pure (true, found) else phase2 rounds found

    -- `bootstrap`; the Boolean is false where it warns or gives up.
    unfoldable pub bootstrap :
        List (RootPeer PublicKey) → M PublicKey (Bool × List (RootPeer PublicKey))
    bootstrap [] = pure (false, [])
    bootstrap (r ∷ rs) = do
      contact_root_peers (r ∷ rs)
      (done, found) ← phase1 rounds1 (r ∷ rs)
      if done then pure (true, found) else phase2 rounds2 found
