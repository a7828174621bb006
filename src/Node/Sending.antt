-- ===== src/Node/Sending.antt =====
-- Connection.go: the sending code, and `Network.send`.
pub mod Laws
pub mod Quiet
pub mod Everywhere
use peernet_core.Prelude.{
  ℕ, zero, suc, ◌+◌, ◌%◌, ◌^◌, Bool, true, false, ◌&&◌, not, List, [], ◌∷◌, ◌++◌, Option, none,
  some, String, Outcome, ok, err, panic, if◌then◌else◌, ◌==◌, length, is_some, beq,
}
use peernet_core.Ip.{Bytes, is_ipv6, is_link_local_unicast, to16}
use peernet_core.Crypto.{Crypto}
use peernet_core.Packet.{PacketRaw, packet_encrypt}
use peernet_core.Network.{Network, is_network_error_fatal}
use peernet_core.Slice.{items}
use peernet_core.Connection.{
  Connection, PeerInfo, UdpAddr, update, get_connections, invalidate_active_connection,
}
use peernet_core.Node.{Node, World, Datagram, M, pure, ◌>>=◌, ◌>>◌, gets, modify, update_peer}

-- `atomic.AddUint64(counter, 1)`
abbrev pub add_uint64 : ℕ → ℕ
add_uint64 n = (n + 1) % 2 ^ 64

module _ {K : Type 0} where
  -- The error of `PacketEncrypt` is returned; its panic ends the process.
  abbrev pub with_raw : Outcome (List ℕ) → (List ℕ → M K (Option String)) → M K (Option String)
  with_raw panic f = λ _. none
  with_raw (err e) f = pure (some e)
  with_raw (ok raw) f = f raw

  -- `connection.LastPacketOut = time.Now()`
  unfoldable pub touch_out : ℕ → ℕ → M K (Unit {0})
  touch_out k now = modify λ n. record n {
    connections = update n.connections k (record (n.connections k) { last_packet_out = now });
  }

  -- `atomic.AddUint64(&peer.StatsPacketSent, 1)`
  unfoldable pub count_sent : ℕ → M K (Unit {0})
  count_sent q = modify λ n. record n {
    peers =
        update_peer n.peers q
          (record (n.peers q) { stats_packet_sent = add_uint64 (n.peers q).stats_packet_sent });
  }

  -- `peer.invalidateActiveConnection(c)`
  unfoldable pub invalidate : ℕ → ℕ → ℕ → M K (Unit {0})
  invalidate q k now = modify λ n.
      let (h, p) = invalidate_active_connection n.connections (n.peers q) k now in
      record n { connections = h; peers = update_peer n.peers q p }

-- Link-local targets go over link-local networks and others over others, where the interface is
-- known.
pub skips : Network → UdpAddr → Bool
skips network remote =
    is_some network.iface
    && not (beq (is_link_local_unicast remote.ip) (is_link_local_unicast network.address.ip))

abbrev pub to16_or_nil : Bytes → Bytes
to16_or_nil ip = elim (to16 ip) [ none ↦ [] | some ip16 ↦ ip16 ]

module _ (c : Crypto) (w : World c) where
  open c use {PublicKey}

  -- `network.send`: a write to the socket, and its error.
  unfoldable pub network_send : ℕ → Bytes → ℕ → List ℕ → M PublicKey (Option String)
  network_send network ip port raw n =
      let d : Datagram = record { network = network; ip = ip; port = port; raw = raw } in
      some (w.write_to n.wire d, record n { wire = n.wire ++ d ∷ [] })

  -- `PacketEncrypt` with the node's key and the next random numbers, at protocol version 0.
  unfoldable pub encrypt : PublicKey → PacketRaw → M PublicKey (Outcome (List ℕ))
  encrypt receiver packet n =
      elim (packet_encrypt c (w.rand n.draws) w.private_key receiver
        (record packet { protocol = 0 })) [
          | panic ↦ none
          | err e ↦ some (err e, record n { draws = suc n.draws })
          | ok raw ↦ some (ok raw, record n { draws = suc n.draws })
        ]

  -- A write to the address of a connection, at its network.
  unfoldable pub send_to : ℕ → List ℕ → ℕ → M PublicKey (Option String)
  send_to k raw now = do
    touch_out k now
    address ← gets (λ n. (n.connections k).address)
    network ← gets (λ n. (n.connections k).network)
    network_send network address.ip address.port raw

  -- The loop over all active connections; errors are not looked at.
  unfoldable pub broadcast : List ℕ → List ℕ → ℕ → M PublicKey (Unit {0})
  broadcast [] raw now = pure tt
  broadcast (k ∷ ks) raw now = do _ ← send_to k raw now; broadcast ks raw now

  unfoldable pub broadcast_active : ℕ → List ℕ → ℕ → M PublicKey (Option String)
  broadcast_active q raw now = do
    active ← gets (λ n. items (get_connections (n.peers q) true))
    broadcast active raw now
    pure none

  -- What `send` does with the result of the write to the latest connection.
  unfoldable pub send_retry : ℕ → List ℕ → ℕ → ℕ → Option String → M PublicKey (Option String)
  send_retry q raw now k none = pure none
  send_retry q raw now k (some e) =
      (if is_network_error_fatal (some e) then invalidate q k now else pure tt)
      >> broadcast_active q raw now

  -- `send`, once the packet is encrypted and counted.
  unfoldable pub send_raw : ℕ → List ℕ → ℕ → Option ℕ → M PublicKey (Option String)
  send_raw q raw now none = broadcast_active q raw now
  send_raw q raw now (some k) = do error ← send_to k raw now; send_retry q raw now k error

  -- `PeerInfo.send`: `none` is a nil error.
  unfoldable pub send : ℕ → PacketRaw → ℕ → M PublicKey (Option String)
  send q packet now n =
      if (n.peers q).connection_active.len == 0
      then some (some "no valid connection to peer", n)
      else (do
        result ← encrypt (n.peers q).public_key packet
        with_raw result λ raw. do
          count_sent q
          latest ← gets (λ n. (n.peers q).connection_latest)
          send_raw q raw now latest)
          n

  -- `PeerInfo.sendConnection`
  unfoldable pub send_connection : ℕ → PacketRaw → ℕ → ℕ → M PublicKey (Option String)
  send_connection q packet k now = do
    receiver ← gets (λ n. (n.peers q).public_key)
    result ← encrypt receiver packet
    with_raw result λ raw. count_sent q >> send_to k raw now

  -- The loop of `sendAllNetworks` over one list of networks: how many writes succeeded.
  unfoldable pub send_networks : List ℕ → UdpAddr → List ℕ → M PublicKey ℕ
  send_networks [] remote raw = pure 0
  send_networks (k ∷ ks) remote raw = do
    network ← gets (λ n. n.adapters.networks k)
    let rest = send_networks ks remote raw
    if skips network remote then rest else (do
      error ← network_send k remote.ip remote.port raw
      count ← rest
      pure (elim error [ none ↦ count + 1 | some _ ↦ count ]))

  -- `sendAllNetworks`
  unfoldable pub send_all_networks : PublicKey → PacketRaw → UdpAddr → M PublicKey (Option String)
  send_all_networks receiver packet remote = do
    result ← encrypt receiver packet
    with_raw result λ raw. do
      list ← gets (λ n.
          items (
            if is_ipv6 (to16_or_nil remote.ip) then n.adapters.networks6 else n.adapters.networks4))
      success_count ← send_networks list remote raw
      pure (if success_count == 0 then some "no successful send" else none)
