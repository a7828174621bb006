-- ===== src/Node/Discovery.antt =====
-- Bootstrap.go, Network IPv4 Broadcast.go and Network IPv6 Multicast.go: the sending of broadcast
-- and multicast messages that discover peers nearby.
pub mod Laws
use peernet_core.Prelude.{
  ℕ, zero, suc, Bool, true, false, List, [], ◌∷◌, Option, none, some, String, Outcome,
  if◌then◌else◌, leb,
}
use peernet_core.Ip.{Bytes}
use peernet_core.Crypto.{Crypto}
use peernet_core.Slice.{items}
use peernet_core.Network.Discovery.{ipv4_broadcast_port, ipv6_multicast_port}
use peernet_core.Node.{Node, World, M, pure, ◌>>=◌, ◌>>◌, gets}
use peernet_core.Node.Peerlist.{peerlist_count}
use peernet_core.Node.Sending.{network_send, encrypt, with_raw}
use peernet_core.Node.Commands.{plain, command_announcement}

module _ (c : Crypto) (w : World c) where
  open c use {PublicKey}

  -- `PacketEncrypt` of the announcement for a hard-coded key; with a nil key it panics.
  unfoldable pub announce_to :
      Option PublicKey → (List ℕ → M PublicKey (Option String)) → M PublicKey (Option String)
  announce_to none f = λ n. none
  announce_to (some key) f = do raw ← encrypt c w key (plain command_announcement); with_raw raw f

  -- The loop of `BroadcastIPv4Send`, which logs errors and goes on.
  unfoldable pub send_broadcasts : ℕ → List ℕ → List Bytes → M PublicKey (Option String)
  send_broadcasts k raw [] = pure none
  send_broadcasts k raw (ip ∷ ips) = do
    _ ← network_send c w k ip ipv4_broadcast_port raw
    send_broadcasts k raw ips

  -- `BroadcastIPv4Send` and `MulticastIPv6Send` of the network k.
  unfoldable pub broadcast_ipv4_send : ℕ → M PublicKey (Option String)
  broadcast_ipv4_send k =
      announce_to w.broadcast_key
        λ raw n. send_broadcasts k raw (n.adapters.networks k).broadcast_ipv4 n

  unfoldable pub multicast_ipv6_send : ℕ → M PublicKey (Option String)
  multicast_ipv6_send k =
      announce_to w.multicast_key
        λ raw n. network_send c w k (n.adapters.networks k).multicast_ip ipv6_multicast_port raw n

  -- A loop over a list of networks that only logs errors.
  unfoldable pub for_networks : (ℕ → M PublicKey (Option String)) → List ℕ → M PublicKey (Unit {0})
  for_networks body [] = pure tt
  for_networks body (k ∷ ks) = do _ ← body k; for_networks body ks

  -- `sendMulticastBroadcast`
  unfoldable pub send_multicast_broadcast : M PublicKey (Unit {0})
  send_multicast_broadcast = do
    list6 ← gets (λ n. items n.adapters.networks6)
    for_networks multicast_ipv6_send list6
    list4 ← gets (λ n. items n.adapters.networks4)
    for_networks broadcast_ipv4_send list4

  -- What the other goroutines do while `autoMulticastBroadcast` sleeps, by the number of rounds
  -- left.
  module _ (meanwhile : ℕ → M PublicKey (Unit {0})) where
    -- Phase 1: every ten seconds until there is a peer, for at most so many rounds; whether there
    -- is a peer then.
    unfoldable pub until_peer : ℕ → M PublicKey Bool
    until_peer zero = pure false
    until_peer (suc rounds) = do
      meanwhile rounds
      count ← gets (peerlist_count c)
      if leb 1 count then pure true else send_multicast_broadcast >> until_peer rounds

    -- Phase 2, so many rounds of ten minutes.
    unfoldable pub regularly : ℕ → M PublicKey (Unit {0})
    regularly zero = pure tt
    regularly (suc rounds) = do meanwhile rounds; send_multicast_broadcast; regularly rounds

    -- `autoMulticastBroadcast`, up to so many rounds of the two phases: phase 2 only follows when
    -- phase 1 has ended.
    unfoldable pub auto_multicast_broadcast : ℕ → ℕ → M PublicKey Bool
    auto_multicast_broadcast first rounds = do
      send_multicast_broadcast
      found ← until_peer first
      if found then regularly rounds >> pure true else pure false
