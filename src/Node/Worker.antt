-- ===== src/Node/Worker.antt =====
-- Network.go: `packetWorker`, what a node does with one packet.
pub mod Laws
pub mod Known
use peernet_core.Prelude.{
  ℕ, zero, suc, ◌+◌, Bool, true, false, ◌||◌, not, List, [], ◌∷◌, Option, none, some, String,
  Outcome, ok, err, panic, if◌then◌else◌, ◌==◌,
}
use peernet_core.Crypto.{Crypto}
use peernet_core.Packet.{PacketRaw, packet_decrypt}
use peernet_core.Connection.{Connection, UdpAddr, active, update, register_connection}
use peernet_core.Node.{Node, World, M, pure, ◌>>=◌, ◌>>◌, gets, modify, update_peer, local_ip}
use peernet_core.Node.Peerlist.{peerlist_lookup}
use peernet_core.Node.Sending.{add_uint64}
use peernet_core.Node.Commands.{
  Message, cmd_announcement, cmd_response, cmd_ping, cmd_pong, cmd_chat, command_announcement,
  command_response, command_ping, command_pong, command_chat,
}

-- Network Init.go, `networkWire`; `unicast` is not read anywhere.
pub record NetworkWire (K : Type 0) : Type 0 where
  pub network : ℕ
  pub sender : UdpAddr
  pub receiver_public_key : K
  pub raw : List ℕ

-- `&Connection{Network: …, Address: …, Status: ConnectionActive}`; times are zero.
abbrev pub new_connection : ℕ → UdpAddr → Connection
new_connection network sender = record {
  network = network;
  address = sender;
  last_packet_in = 0;
  last_packet_out = 0;
  last_ping_out = 0;
  expires = 0;
  status = active;
}

module _ {K : Type 0} where
  -- A new connection, and its pointer.
  unfoldable pub allocate : Connection → M K ℕ
  allocate v n = some (
    n.next_connection,
    record n {
      connections = update n.connections n.next_connection v;
      next_connection = suc n.next_connection;
    },
  )

  -- `atomic.AddUint64(&peer.StatsPacketReceived, 1)`
  unfoldable pub count_received : ℕ → M K (Unit {0})
  count_received q = modify λ n. record n {
    peers = update_peer n.peers q (record (n.peers q) {
      stats_packet_received = add_uint64 (n.peers q).stats_packet_received;
    });
  }

  -- `peer.registerConnection(connection)`
  unfoldable pub register : ℕ → ℕ → M K ℕ
  register q k n =
      let (h, p, k') = register_connection (local_ip n) n.connections (n.peers q) k in
      some (k', record n { connections = h; peers = update_peer n.peers q p })

  -- `connection.LastPacketIn = time.Now()`
  unfoldable pub touch_in : ℕ → ℕ → M K (Unit {0})
  touch_in k now = modify λ n. record n {
    connections = update n.connections k (record (n.connections k) { last_packet_in = now });
  }

  -- The connection of an existing peer is one that it has, if one is equal.
  unfoldable pub attribute : Option ℕ → ℕ → M K ℕ
  attribute none k = pure k
  attribute (some q) k = do count_received q; register q k

module _ (c : Crypto) (w : World c) where
  open c use {PublicKey, is_equal}

  -- The switch on the command.
  unfoldable pub dispatch : Option ℕ → Message PublicKey → ℕ → M PublicKey (Unit {0})
  dispatch peer msg now =
      if msg.packet.command == command_announcement
      then cmd_announcement c w peer msg now
      else if msg.packet.command == command_response
      then cmd_response c w peer msg
      else if msg.packet.command == command_ping
      then cmd_ping c w peer msg now
      else if msg.packet.command == command_pong
      then cmd_pong c w peer msg
      else if msg.packet.command == command_chat
      then cmd_chat c w peer msg
      else pure tt

  -- A packet that was accepted: the body of the loop from the new connection on.
  unfoldable pub process :
      NetworkWire PublicKey → PacketRaw → PublicKey → ℕ → M PublicKey (Unit {0})
  process wire decoded sender now = do
    connection ← allocate (new_connection wire.network wire.sender)
    peer ← gets (λ n. peerlist_lookup c n sender)
    k ← attribute peer connection
    touch_in k now
    dispatch peer (record { packet = decoded; sender_public_key = sender; connection = k }) now

  -- The body of the loop, by what `PacketDecrypt` returns.
  unfoldable pub receive :
      NetworkWire PublicKey → Outcome (PacketRaw × PublicKey) → ℕ → M PublicKey (Unit {0})
  receive wire panic now = λ n. none
  receive wire (err e) now = pure tt
  receive wire (ok (decoded, sender)) now =
      if is_equal sender w.public_key
      then pure tt
      else if not (decoded.protocol == 0)
      then pure tt
      else process wire decoded sender now

  -- One packet from the channel in `packetWorker`.
  unfoldable pub packet_worker : NetworkWire PublicKey → ℕ → M PublicKey (Unit {0})
  packet_worker wire now = receive wire (packet_decrypt c wire.raw wire.receiver_public_key) now
