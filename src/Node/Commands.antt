-- ===== src/Node/Commands.antt =====
-- Commands.go: the handlers of incoming messages, and the regular pings.
pub mod Quiet
use peernet_core.Prelude.{
  ℕ, zero, suc, ◌+◌, ◌*◌, Bool, true, false, ◌&&◌, ◌||◌, List, [], ◌∷◌, Option, none, some, String,
  if◌then◌else◌, ◌==◌, ltb, get_elem?,
}
use peernet_core.Crypto.{Crypto}
use peernet_core.Packet.{PacketRaw}
use peernet_core.Network.{is_network_error_fatal}
use peernet_core.Connection.{
  Connection, Status, active, redundant, inactive, removed, update, second, get_connections,
  remove_inactive_connection,
}
use peernet_core.Node.{Node, World, M, pure, ◌>>=◌, ◌>>◌, gets, modify, update_peer}
use peernet_core.Node.Peerlist.{peerlist_add, peerlist_get}
use peernet_core.Node.Sending.{send, send_connection, invalidate}

abbrev pub command_announcement : ℕ
command_announcement = 0

abbrev pub command_response : ℕ
command_response = 1

abbrev pub command_ping : ℕ
command_ping = 2

abbrev pub command_pong : ℕ
command_pong = 3

abbrev pub command_chat : ℕ
command_chat = 10

-- `&PacketRaw{Command: command}`
abbrev pub plain : ℕ → PacketRaw
plain command = record { protocol = 0; command = command; payload = [] }

-- `packet2`
pub record Message (K : Type 0) : Type 0 where
  pub packet : PacketRaw
  pub sender_public_key : K
  pub connection : ℕ

-- `pingTime` and `connectionInvalidate`, in seconds
abbrev pub ping_time : ℕ
ping_time = 10

abbrev pub connection_invalidate : ℕ
connection_invalidate = 22

-- `t.Before(time.Now().Add(-seconds * time.Second * factor))`
abbrev pub is_older : ℕ → ℕ → ℕ → ℕ → Bool
is_older t seconds factor now = ltb (t + seconds * second * factor) now

-- The thresholds of a redundant connection are four times as far away.
abbrev pub threshold_factor : Status → ℕ
threshold_factor active = 1
threshold_factor inactive = 1
threshold_factor removed = 1
threshold_factor redundant = 4

abbrev pub is_usable : Status → Bool
is_usable active = true
is_usable redundant = true
is_usable inactive = false
is_usable removed = false

module _ (c : Crypto) (w : World c) where
  open c use {PublicKey}

  -- `peer.send`, its error not looked at. On a nil peer it panics.
  unfoldable pub reply : Option ℕ → PacketRaw → ℕ → M PublicKey (Unit {0})
  reply none packet now = λ n. none
  reply (some q) packet now = do _ ← send c w q packet now; pure tt

  abbrev pub add_peer : PublicKey → List ℕ → M PublicKey (Option ℕ × Bool)
  add_peer k cs n = let (peer, added, n') = peerlist_add c n k cs in some ((peer, added), n')

  -- `cmdAnouncement`; `none` is a nil peer.
  unfoldable pub cmd_announcement : Option ℕ → Message PublicKey → ℕ → M PublicKey (Unit {0})
  cmd_announcement none msg now = do
    (peer, added) ← add_peer msg.sender_public_key (msg.connection ∷ [])
    if added then reply peer (plain command_response) now else pure tt
  cmd_announcement (some q) msg now = reply (some q) (plain command_response) now

  unfoldable pub cmd_response : Option ℕ → Message PublicKey → M PublicKey (Unit {0})
  cmd_response none msg = do _ ← add_peer msg.sender_public_key (msg.connection ∷ []); pure tt
  cmd_response (some q) msg = pure tt

  unfoldable pub cmd_ping : Option ℕ → Message PublicKey → ℕ → M PublicKey (Unit {0})
  cmd_ping none msg now = pure tt
  cmd_ping (some q) msg now = reply (some q) (plain command_pong) now

  -- `cmdPong` and `cmdChat` change nothing; a chat message is printed.
  abbrev pub cmd_pong : Option ℕ → Message PublicKey → M PublicKey (Unit {0})
  cmd_pong peer msg = pure tt

  abbrev pub cmd_chat : Option ℕ → Message PublicKey → M PublicKey (Unit {0})
  cmd_chat peer msg = pure tt

  -- `sendPing`: the status is read after the write.
  unfoldable pub send_ping : ℕ → ℕ → ℕ → M PublicKey (Unit {0})
  send_ping q k now = do
    error ← send_connection c w q (plain command_ping) k now
    modify λ n. record n {
      connections = update n.connections k (record (n.connections k) { last_ping_out = now });
    }
    status ← gets (λ n. (n.connections k).status)
    if is_usable status && is_network_error_fatal error then invalidate q k now else pure tt

  -- One active connection in `autoPingAll`.
  unfoldable pub check_active : ℕ → ℕ → ℕ → M PublicKey (Unit {0})
  check_active q k now = do
    connection ← gets (λ n. n.connections k)
    let factor = threshold_factor connection.status
    if is_older connection.last_packet_in connection_invalidate factor now
        then invalidate q k now
        else if is_older connection.last_packet_in ping_time factor now
            && is_older connection.last_ping_out ping_time factor now
        then send_ping q k now
        else pure tt

  -- `peer.removeInactiveConnection(connection)`
  unfoldable pub remove_inactive : ℕ → ℕ → M PublicKey (Unit {0})
  remove_inactive q k = modify λ n.
      let (h, p) = remove_inactive_connection n.connections (n.peers q) k in
      record n { connections = h; peers = update_peer n.peers q p }

  -- One inactive connection in `autoPingAll`.
  unfoldable pub check_inactive : ℕ → ℕ → ℕ → M PublicKey (Unit {0})
  check_inactive q k now = do
    connection ← gets (λ n. n.connections k)
    p ← gets (λ n. n.peers q)
    if (ltb 0 p.connection_active.len || ltb 2 p.connection_inactive.len)
          && ltb connection.expires now
        then remove_inactive q k
        else if is_older connection.last_ping_out ping_time 1 now
        then send_ping q k now
        else pure tt

  -- A range loop over a list of the peer reads each element from the array when it gets there, up
  -- to the length that the list had at the start: `count` more elements, from `i`. The list may
  -- have moved in its array since.
  unfoldable pub range_connections :
      Bool → (ℕ → M PublicKey (Unit {0})) → ℕ → ℕ → ℕ → M PublicKey (Unit {0})
  range_connections active? body q i zero = pure tt
  range_connections active? body q i (suc count) = do
    at ← gets (λ n. get_elem? (get_connections (n.peers q) active?).array i)
    elim at [ none ↦ pure tt | some k ↦ body k ]
    range_connections active? body q (suc i) count

  -- `autoPingAll` for one peer.
  unfoldable pub ping_peer : ℕ → ℕ → M PublicKey (Unit {0})
  ping_peer q now = do
    active_count ← gets (λ n. (n.peers q).connection_active.len)
    range_connections true (λ k. check_active q k now) q 0 active_count
    inactive_count ← gets (λ n. (n.peers q).connection_inactive.len)
    range_connections false (λ k. check_inactive q k now) q 0 inactive_count

  unfoldable pub for_peers : (ℕ → M PublicKey (Unit {0})) → List ℕ → M PublicKey (Unit {0})
  for_peers body [] = pure tt
  for_peers body (q ∷ qs) = do body q; for_peers body qs

  -- One round of `autoPingAll`, which the code repeats every second for ever.
  unfoldable pub ping_all : ℕ → M PublicKey (Unit {0})
  ping_all now = do peers ← gets (peerlist_get c); for_peers (λ q. ping_peer q now) peers

  -- `SendChatAll`; the payload is the text's bytes.
  unfoldable pub send_chat_all : List ℕ → ℕ → M PublicKey (Unit {0})
  send_chat_all text now = do
    peers ← gets (peerlist_get c)
    for_peers
        (λ q. reply (some q) (record { protocol = 0; command = command_chat; payload = text }) now)
        peers
