-- ===== src/Node/Invariant/Worker.antt =====
-- Network.go: `packetWorker` and the invariant of a node.
use peernet_core.Prelude.{
  ℕ, suc, ◌<◌, ◌≡◌, ◌≢◌, refl, ap, ◌∙◌, List, Option, none, some, Outcome, ok, err, panic, ◌==◌,
  arith, Bool-cases, Option-cases, inl, inr, ◌⊎◌,
}
use peernet_core.Crypto.{Crypto}
use peernet_core.Packet.{PacketRaw}
use peernet_core.Network.{Adapters, accept_unicast, accept_discovery}
use peernet_core.Connection.{Connection, UdpAddr, active, update, register_connection}
use peernet_core.Connection.Moves.{update_self}
use peernet_core.Node.{Node, World, bind_step, local_ip, update_peer}
use peernet_core.Node.Invariant.{IsSound, has-map_get}
use peernet_core.Node.Invariant.Sending.{
  IsSafe, bind-IsSafe, pure-IsSafe, if-IsSafe, send-IsSafe, touched-IsSound,
}
use peernet_core.Node.Peerlist.{peerlist_add, peerlist_lookup, public_key2_compressed}
use peernet_core.Node.Sending.{send, add_uint64}
use peernet_core.Node.Sending.Quiet.{IsShort}
use peernet_core.Node.Commands.{
  Message, plain, reply, cmd_announcement, cmd_response, cmd_ping, command_announcement,
  command_response, command_ping, command_pong, command_chat,
}
use peernet_core.Node.Worker.{
  NetworkWire, new_connection, allocate, count_received, register, touch_in, attribute, dispatch,
  process, receive, packet_worker,
}
use peernet_core.Node.Worker.Laws.{passed-length}
use peernet_core.Packet.Decoding.{packet_decrypt-panic_free}
use peernet_core.Node.Invariant.Arrival.{
  with_owner, allocated-IsSound, counted-IsSound, registered-IsSound, added-IsSound,
}

module _ (c : Crypto) (w : World c) (owner : ℕ → ℕ) where
  open c use {PublicKey}

  pub reply-IsSafe :
      (q : ℕ) (packet : PacketRaw) (now : ℕ)
      → IsShort packet
      → IsSafe owner q (reply c w (some q) packet now)
  unfolding reply
  reply-IsSafe q packet now short =
      bind-IsSafe owner q (send c w q packet now) _ (send-IsSafe c w owner q packet now short)
        (λ _. pure-IsSafe owner q tt)

  dispatched-IsSafe :
      (q : ℕ) (msg : Message PublicKey) (now : ℕ) → IsSafe owner q (dispatch c w (some q) msg now)
  unfolding dispatch cmd_announcement cmd_response cmd_ping
  dispatched-IsSafe q msg now =
      if-IsSafe owner q (msg.packet.command == command_announcement) _ _
        (reply-IsSafe q (plain command_response) now (omega arith))
        (if-IsSafe owner q (msg.packet.command == command_response) _ _ (pure-IsSafe owner q tt) (
          if-IsSafe owner q (msg.packet.command == command_ping) _ _
            (reply-IsSafe q (plain command_pong) now (omega arith))
            (if-IsSafe owner q (msg.packet.command == command_pong) _ _ (pure-IsSafe owner q tt) (
              if-IsSafe owner q (msg.packet.command == command_chat) _ _ (pure-IsSafe owner q tt)
                (pure-IsSafe owner q tt)))))

  -- The node that a step leaves is sound.
  abbrev LeavesSound : Option (Unit {0} × Node PublicKey) → Type 0
  LeavesSound r = (n' : Node PublicKey) × (r ≡ some (tt, n')) × IsSound owner n'

  -- A message of an unknown peer, with a connection that will be the new peer's.
  unknown-LeavesSound :
      (msg : Message PublicKey) (now : ℕ) (n : Node PublicKey)
      → peerlist_lookup c n msg.sender_public_key ≡ none
      → IsSound owner n
      → owner msg.connection ≡ n.next_peer
      → msg.connection < n.next_connection
      → (n.connections msg.connection).status ≡ active
      → LeavesSound (dispatch c w none msg now n)
  unfolding dispatch cmd_announcement cmd_response cmd_ping peerlist_add peerlist_lookup
  unknown-LeavesSound msg now n new sound mine used fresh =
      let added =
        added-IsSound owner msg.sender_public_key msg.connection
          (public_key2_compressed c msg.sender_public_key) n sound mine used fresh in
      elim (Bool-cases (msg.packet.command == command_announcement)) [
        | inl hit ↦
            rw (hit, dispatch, new, peerlist_add)
              (let (a, n', done, s, _) =
                  reply-IsSafe n.next_peer (plain command_response) now (omega arith) _ added
                    (omega arith) in
                (n', done, s))
        | inr first ↦ elim (Bool-cases (msg.packet.command == command_response)) [
          | inl hit ↦ rw (first, hit, dispatch, new, peerlist_add) (_, refl, added)
          | inr second ↦ rw (first, second, dispatch) (n, ground arith, sound)
        ]
      ]

module _ (c : Crypto) (w : World c) (owner : ℕ → ℕ) where
  open c use {PublicKey, is_equal}

  -- A step returns, and leaves a sound node, in which the connections have owners again.
  abbrev pub StaysSound : Option (Unit {0} × Node PublicKey) → Type 0
  StaysSound r = (n' : Node PublicKey) × (owner' : ℕ → ℕ) × (r ≡ some (tt, n')) × IsSound owner' n'

  module _ (wire : NetworkWire PublicKey) (decoded : PacketRaw) (sender : PublicKey) (now : ℕ)
      (n : Node PublicKey) (sound : IsSound owner n) where
    abbrev v : Connection
    v = new_connection wire.network wire.sender

    abbrev k₀ : ℕ
    k₀ = n.next_connection

    abbrev n₁ : Node PublicKey
    n₁ = record n { connections = update n.connections k₀ v; next_connection = suc k₀ }

    abbrev msg : ℕ → Message PublicKey
    msg k = record { packet = decoded; sender_public_key = sender; connection = k }

    abbrev touched : Node PublicKey → ℕ → Node PublicKey
    touched m k = record m {
      connections = update m.connections k (record (m.connections k) { last_packet_in = now });
    }

    unknown-StaysSound :
        peerlist_lookup c n sender ≡ none → StaysSound (process c w wire decoded sender now n)
    unfolding process allocate touch_in attribute peerlist_lookup
    unknown-StaysSound new =
        let owner₁ = with_owner owner k₀ n.next_peer in
        let s₁ = allocated-IsSound owner n.next_peer v n sound in
        let s₂ = touched-IsSound owner₁ n₁ k₀ _ refl refl s₁ in
        let (n', done, s) =
          unknown-LeavesSound c w owner₁ (msg k₀) now (touched n₁ k₀) new s₂ (ground arith)
            (omega arith)
            (ap (λ (z : Connection). z.status) (update_self (update n.connections k₀ v) k₀ _)
              ∙ ap (λ (z : Connection). z.status) (update_self n.connections k₀ v)) in
        let attributed : attribute (peerlist_lookup c n sender) k₀ n₁ ≡ some (k₀, n₁) =
          rw new refl in
        (
          n',
          owner₁,
          bind_step (attribute (peerlist_lookup c n sender) k₀) _ n₁ attributed
              ∙ ap (λ peer. dispatch c w peer (msg k₀) now (touched n₁ k₀)) new
              ∙ done,
          s,
        )

    known-StaysSound :
        (q : ℕ)
        → peerlist_lookup c n sender ≡ some q
        → StaysSound (process c w wire decoded sender now n)
    unfolding process allocate touch_in attribute count_received register peerlist_lookup
    known-StaysSound q old =
        let owner₁ = with_owner owner k₀ q in
        let inside : q < n.next_peer = sound.known q (has-map_get _ q n.peer_list old) in
        let n₂ = record n₁ {
          peers = update_peer n.peers q (record (n.peers q) {
            stats_packet_received = add_uint64 (n.peers q).stats_packet_received;
          });
        } in
        let s₂ = counted-IsSound owner₁ q n₁ (allocated-IsSound owner q v n sound) inside in
        let r = register_connection (local_ip n) n₁.connections (n₂.peers q) k₀ in
        let n₃ = record n₂ { connections = r.0; peers = update_peer n₂.peers q r.1 } in
        let s₃ =
          registered-IsSound owner₁ q k₀ n₂ s₂ inside (ground arith) (omega arith)
            (ap (λ (z : Connection). z.status) (update_self n.connections k₀ v)) in
        let s₄ = touched-IsSound owner₁ n₃ r.2 _ refl refl s₃ in
        let (a, n', done, s, _) =
          dispatched-IsSafe c w owner₁ q (msg r.2) now (touched n₃ r.2) s₄ inside in
        let attributed : attribute (peerlist_lookup c n sender) k₀ n₁ ≡ some (r.2, n₃) =
          rw old refl in
        (
          n',
          owner₁,
          bind_step (attribute (peerlist_lookup c n sender) k₀) _ n₁ attributed
              ∙ ap (λ peer. dispatch c w peer (msg r.2) now (touched n₃ r.2)) old
              ∙ done,
          s,
        )

    pub process-StaysSound : StaysSound (process c w wire decoded sender now n)
    process-StaysSound = elim (Option-cases (peerlist_lookup c n sender)) [
      | inl new ↦ unknown-StaysSound new
      | inr (q, old) ↦ known-StaysSound q old
    ]

  unchanged-StaysSound : (n : Node PublicKey) → IsSound owner n → StaysSound (some (tt, n))
  unchanged-StaysSound n sound = (n, owner, refl, sound)

  received-StaysSound :
      (wire : NetworkWire PublicKey) (o : Outcome (PacketRaw × PublicKey)) (now : ℕ)
      (n : Node PublicKey)
      → IsSound owner n
      → o ≢ panic
      → StaysSound (receive c w wire o now n)
  unfolding receive
  received-StaysSound wire panic now n sound h = absurd (h refl)
  received-StaysSound wire (err text) now n sound h = unchanged-StaysSound n sound
  received-StaysSound wire (ok (decoded, sender)) now n sound h =
      elim (Bool-cases (is_equal sender w.public_key)) [
        | inl own ↦ rw own (unchanged-StaysSound n sound)
        | inr other ↦ elim (Bool-cases (decoded.protocol == 0)) [
          | inl zeroth ↦ rw (other, zeroth) (process-StaysSound wire decoded sender now n sound)
          | inr later ↦ rw (other, later) (unchanged-StaysSound n sound)
        ]
      ]

  -- `packetWorker` on a packet that a listener passes on, in a node where the connections of every
  -- peer are consistent, no connection is in two peers and the peer list has peers in use: it
  -- returns, and the same holds of the node afterwards.
  pub packet_worker-StaysSound :
      (wire : NetworkWire PublicKey) (now : ℕ) (n : Node PublicKey) (raw : List ℕ) (k : ℕ)
      (sender : UdpAddr) (a : Adapters)
      → IsSound owner n
      → (accept_unicast raw ≡ some wire.raw) ⊎ (accept_discovery k sender raw a ≡ some wire.raw)
      → StaysSound (packet_worker c w wire now n)
  unfolding packet_worker
  packet_worker-StaysSound wire now n raw k sender a sound passed =
      received-StaysSound wire _ now n sound (
        packet_decrypt-panic_free c wire.raw wire.receiver_public_key
          (passed-length raw wire.raw k sender a passed))
