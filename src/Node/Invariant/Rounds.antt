-- ===== src/Node/Invariant/Rounds.antt =====
-- Commands.go: a round of `autoPingAll`, and `SendChatAll`, over all peers of a sound node.
use peernet_core.Prelude.{
  ℕ, ◌<◌, ◌≡◌, refl, sym, ap, ◌∙◌, subst, true, List, [], ◌∷◌, map, Option, none, some, arith,
  length,
}
use peernet_core.Ip.{Bytes}
use peernet_core.Crypto.{Crypto}
use peernet_core.Packet.{PacketRaw}
use peernet_core.Slice.Pointers.{has}
use peernet_core.Node.{Node, World, M, bind_step}
use peernet_core.Node.Quiet.{IsQuiet}
use peernet_core.Node.Peerlist.{peerlist_get}
use peernet_core.Node.Commands.{reply, command_chat, ping_peer, for_peers, ping_all, send_chat_all}
use peernet_core.Node.Commands.Quiet.{reply-IsQuiet, ping_peer-IsQuiet}
use peernet_core.Node.Invariant.{IsSound}
use peernet_core.Node.Invariant.Ping.{Leaves, ping_peer-Leaves}
use peernet_core.Node.Invariant.Worker.{reply-IsSafe}

module _ (c : Crypto) (w : World c) (owner : ℕ → ℕ) where
  open c use {PublicKey}

  -- The peer list after a step, by its result.
  abbrev list_after : Option (Unit {0} × Node PublicKey) → List (Bytes × ℕ)
  list_after none = []
  list_after (some (_, n)) = n.peer_list

  for_peers-Leaves :
      (body : ℕ → M PublicKey (Unit {0})) (qs : List ℕ) (n : Node PublicKey)
      → ((q : ℕ) (m : Node PublicKey)
          → IsSound owner m
          → q < m.next_peer
          → Leaves (IsSound owner) (body q m))
      → ((q : ℕ) → IsQuiet (body q))
      → IsSound owner n
      → ((q : ℕ) → has q qs ≡ true → has q (map (λ e. e.1) n.peer_list) ≡ true)
      → Leaves (IsSound owner) (for_peers c w body qs n)
  unfolding for_peers
  for_peers-Leaves body [] n each quiet sound listed = (tt, n, refl, sound)
  for_peers-Leaves body (q ∷ qs) n each quiet sound listed =
      let (a, n₁, done, sound₁) = each q n sound (sound.known q (listed q (ground arith))) in
      let (a', n', done', same) = quiet q n in
      let kept : n₁.peer_list ≡ n.peer_list = ap list_after (sym done ∙ done') ∙ same in
      let (b, n₂, rest, sound₂) = for_peers-Leaves body qs n₁ each quiet sound₁ (λ r m.
        subst (λ l. has r (map (λ e. e.1) l) ≡ true) (sym kept) (listed r (ground (arith, m)))) in
      (b, n₂, bind_step (body q) _ n done ∙ rest, sound₂)

  -- A round of `autoPingAll` in a node where the connections of every peer are consistent, no
  -- connection is in two peers and the peer list has peers in use: it returns, and the same holds
  -- of the node afterwards, though the round moves connections while it goes over them.
  pub ping_all-LeavesSound :
      (now : ℕ) (n : Node PublicKey) → IsSound owner n → Leaves (IsSound owner) (ping_all c w now n)
  unfolding ping_all
  ping_all-LeavesSound now n sound =
      for_peers-Leaves (λ q. ping_peer c w q now) (peerlist_get c n) n
        (ping_peer-Leaves c w owner now) (λ q. ping_peer-IsQuiet c w q now) sound (λ q m. m)

  -- `SendChatAll`, with a text of less than 416 bytes.
  pub send_chat_all-LeavesSound :
      (text : List ℕ) (now : ℕ) (n : Node PublicKey)
      → length text < 416
      → IsSound owner n
      → Leaves (IsSound owner) (send_chat_all c w text now n)
  unfolding send_chat_all
  send_chat_all-LeavesSound text now n short sound =
      let packet : PacketRaw = record { protocol = 0; command = command_chat; payload = text } in
      for_peers-Leaves (λ q. reply c w (some q) packet now) (peerlist_get c n) n
        (λ q m s i.
          let (a, m', done, s', _) = reply-IsSafe c w owner q packet now short m s i in
          (a, m', done, s'))
        (λ q. reply-IsQuiet c w q packet now short) sound (λ q m. m)
