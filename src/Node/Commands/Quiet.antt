-- ===== src/Node/Commands/Quiet.antt =====
-- Commands.go: the handlers, the pings and the peer list.
use peernet_core.Prelude.{
  ℕ, zero, suc, ◌≡◌, refl, Bool, true, false, Option, none, some, arith, get_elem?,
}
use peernet_core.Crypto.{Crypto}
use peernet_core.Packet.{PacketRaw}
use peernet_core.Connection.{get_connections, update}
use peernet_core.Node.{Node, World, M, pure}
use peernet_core.Node.Quiet.{IsQuiet, bind-IsQuiet, pure-IsQuiet, if-IsQuiet}
use peernet_core.Node.Sending.{send, send_connection}
use peernet_core.Node.Sending.Quiet.{
  IsShort, send-IsQuiet, send_connection-IsQuiet, invalidate-IsQuiet,
}
use peernet_core.Node.Peerlist.{peerlist_add, peerlist_lookup, map_set, public_key2_compressed}
use peernet_core.Node.Commands.{
  Message, plain, reply, cmd_announcement, cmd_response, cmd_ping, command_response, command_ping,
  command_pong, send_ping, check_active, check_inactive, remove_inactive, range_connections,
  ping_peer,
}

module _ (c : Crypto) (w : World c) where
  open c use {PublicKey}

  pub reply-IsQuiet :
      (q : ℕ) (packet : PacketRaw) (now : ℕ)
      → IsShort packet
      → IsQuiet (reply c w (some q) packet now)
  unfolding reply
  reply-IsQuiet q packet now short =
      bind-IsQuiet (send c w q packet now) _ (send-IsQuiet c w q packet now short)
        (λ _. pure-IsQuiet tt)

  pub ping-IsQuiet :
      (peer : Option ℕ) (msg : Message PublicKey) (now : ℕ) → IsQuiet (cmd_ping c w peer msg now)
  unfolding cmd_ping
  ping-IsQuiet none msg now = pure-IsQuiet tt
  ping-IsQuiet (some q) msg now = reply-IsQuiet q (plain command_pong) now (omega arith)

  pub announcement-IsQuiet :
      (q : ℕ) (msg : Message PublicKey) (now : ℕ) → IsQuiet (cmd_announcement c w (some q) msg now)
  unfolding cmd_announcement
  announcement-IsQuiet q msg now = reply-IsQuiet q (plain command_response) now (omega arith)

  -- A peer under that key has been added.
  abbrev pub Adds : Node PublicKey → PublicKey → Option (Unit {0} × Node PublicKey) → Type 0
  Adds n k r =
      (n' : Node PublicKey) × (r ≡ some (tt, n'))
      × (n'.peer_list ≡ map_set (public_key2_compressed c k) n.next_peer n.peer_list)

  pub announcement-Adds :
      (msg : Message PublicKey) (now : ℕ) (n : Node PublicKey)
      → peerlist_lookup c n msg.sender_public_key ≡ none
      → Adds n msg.sender_public_key (cmd_announcement c w none msg now n)
  unfolding cmd_announcement peerlist_add peerlist_lookup
  announcement-Adds msg now n new =
      rw (new, peerlist_add)
        (let (a, n', done, same) =
            reply-IsQuiet n.next_peer (plain command_response) now (omega arith) _ in
          (n', done, same))

  pub response-Adds :
      (msg : Message PublicKey) (n : Node PublicKey)
      → peerlist_lookup c n msg.sender_public_key ≡ none
      → Adds n msg.sender_public_key (cmd_response c w none msg n)
  unfolding cmd_response peerlist_add peerlist_lookup
  response-Adds msg n new = rw (new, peerlist_add) (_, refl, refl)

  send_ping-IsQuiet : (q k now : ℕ) → IsQuiet (send_ping c w q k now)
  unfolding send_ping
  send_ping-IsQuiet q k now =
      bind-IsQuiet (send_connection c w q (plain command_ping) k now) _
        (send_connection-IsQuiet c w q (plain command_ping) k now (omega arith))
        λ error n. if-IsQuiet _ _ _ (invalidate-IsQuiet q k now) (pure-IsQuiet tt) (record n {
          connections = update n.connections k (record (n.connections k) { last_ping_out = now });
        })

  check_active-IsQuiet : (q k now : ℕ) → IsQuiet (check_active c w q k now)
  unfolding check_active
  check_active-IsQuiet q k now n =
      if-IsQuiet _ _ _ (invalidate-IsQuiet q k now)
        (if-IsQuiet _ _ _ (send_ping-IsQuiet q k now) (pure-IsQuiet tt)) n

  remove_inactive-IsQuiet : (q k : ℕ) → IsQuiet {K = PublicKey} (remove_inactive c w q k)
  unfolding remove_inactive
  remove_inactive-IsQuiet q k n = (tt, _, refl, refl)

  check_inactive-IsQuiet : (q k now : ℕ) → IsQuiet (check_inactive c w q k now)
  unfolding check_inactive
  check_inactive-IsQuiet q k now n =
      if-IsQuiet _ _ _ (remove_inactive-IsQuiet q k)
        (if-IsQuiet _ _ _ (send_ping-IsQuiet q k now) (pure-IsQuiet tt)) n

  at-IsQuiet :
      (at : Option ℕ) (body : ℕ → M PublicKey (Unit {0}))
      → ((k : ℕ) → IsQuiet (body k))
      → IsQuiet {K = PublicKey} (elim at [ none ↦ pure tt | some k ↦ body k ])
  at-IsQuiet none body quiet = pure-IsQuiet tt
  at-IsQuiet (some k) body quiet = quiet k

  range-IsQuiet :
      (active? : Bool) (body : ℕ → M PublicKey (Unit {0})) (q i count : ℕ)
      → ((k : ℕ) → IsQuiet (body k))
      → IsQuiet (range_connections c w active? body q i count)
  unfolding range_connections
  range-IsQuiet active? body q i zero quiet = pure-IsQuiet tt
  range-IsQuiet active? body q i (suc count) quiet = λ n.
      bind-IsQuiet
        (elim (get_elem? (get_connections (n.peers q) active?).array i) [
          | none ↦ pure tt
          | some k ↦ body k
        ])
        _ (at-IsQuiet _ body quiet) (λ _. range-IsQuiet active? body q (suc i) count quiet) n

  pub ping_peer-IsQuiet : (q now : ℕ) → IsQuiet (ping_peer c w q now)
  unfolding ping_peer
  ping_peer-IsQuiet q now n =
      bind-IsQuiet
        (range_connections c w true (λ k. check_active c w q k now) q 0
          (n.peers q).connection_active.len)
        _ (range-IsQuiet true _ q 0 _ (λ k. check_active-IsQuiet q k now))
        (λ _ n'.
          range-IsQuiet false _ q 0 (n'.peers q).connection_inactive.len
            (λ k. check_inactive-IsQuiet q k now) n')
        n
