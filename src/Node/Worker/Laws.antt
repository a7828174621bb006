-- ===== src/Node/Worker/Laws.antt =====
-- Network.go, `packetWorker`: what a packet does to the peer list.
use peernet_core.Prelude.{
  arith, List, ℕ, suc, ◌≤◌, ◌≡◌, ◌≢◌, refl, sym, ap, ◌∙◌, true, false, length, Option, none, some,
  Outcome, ok, err, panic, if◌then◌else◌, ◌==◌, ==_iff, Bool-cases, inl, inr, ◌⊎◌,
}
use peernet_core.Ip.{bytes_equal}
use peernet_core.Crypto.{Crypto}
use peernet_core.Packet.{PacketRaw, packet_decrypt, packet_length_min}
use peernet_core.Packet.Decoding.{packet_decrypt-panic_free}
use peernet_core.Connection.{UdpAddr, update}
use peernet_core.Network.{Adapters, accept_unicast, accept_discovery}
use peernet_core.Node.{Node, World, M, pure, bind_step}
use peernet_core.Node.Quiet.{IsQuiet, pure-IsQuiet, if-IsQuiet}
use peernet_core.Node.Peerlist.{peerlist_lookup, map_set, map_get, public_key2_compressed}
use peernet_core.Node.Peerlist.Laws.{map_get-map_set}
use peernet_core.Node.Commands.{
  Message, cmd_announcement, cmd_response, cmd_ping, cmd_pong, cmd_chat, command_announcement,
  command_response, command_ping, command_pong, command_chat,
}
use peernet_core.Node.Commands.Quiet.{
  Adds, announcement-Adds, response-Adds, announcement-IsQuiet, ping-IsQuiet,
}
use peernet_core.Node.Worker.{
  NetworkWire, new_connection, allocate, count_received, register, touch_in, attribute, dispatch,
  process, receive, packet_worker,
}

module _ {K : Type 0} where
  attribute-IsQuiet : (peer : Option ℕ) (k : ℕ) → IsQuiet {K = K} (attribute peer k)
  unfolding attribute count_received register
  attribute-IsQuiet none k n = (k, n, refl, refl)
  attribute-IsQuiet (some q) k n = (_, _, refl, refl)

-- All listeners discard what is shorter than a packet can be.
pub passed-length :
    (raw wire : List ℕ) (k : ℕ) (sender : UdpAddr) (a : Adapters)
    → (accept_unicast raw ≡ some wire) ⊎ (accept_discovery k sender raw a ≡ some wire)
    → packet_length_min ≤ length wire
unfolding accept_unicast accept_discovery
passed-length raw wire k sender a (inl h) = ground arith
passed-length raw wire k sender a (inr h) = ground arith

module _ (c : Crypto) (w : World c) where
  open c use {PublicKey, is_equal}

  -- A computation returns, and either leaves the peer list alone, or adds one peer that was not
  -- in it, on an announcement or a response.
  abbrev pub Admits : PublicKey → ℕ → Node PublicKey → Option (Unit {0} × Node PublicKey) → Type 0
  Admits sender command n r =
      (n' : Node PublicKey) × (r ≡ some (tt, n'))
      × ((n'.peer_list ≡ n.peer_list)
          ⊎ ((q : ℕ) × (n'.peer_list ≡ map_set (public_key2_compressed c sender) q n.peer_list)
              × (peerlist_lookup c n sender ≡ none)
              × ((command ≡ command_announcement) ⊎ (command ≡ command_response))))

  quiet-Admits :
      (sender : PublicKey) (command : ℕ) (m : M PublicKey (Unit {0})) (n : Node PublicKey)
      → IsQuiet m
      → Admits sender command n (m n)
  quiet-Admits sender command m n quiet = let (a, n', done, same) = quiet n in (n', done, inl same)

  added-Admits :
      (sender : PublicKey) (command : ℕ) (n : Node PublicKey)
      (r : Option (Unit {0} × Node PublicKey))
      → (command ≡ command_announcement) ⊎ (command ≡ command_response)
      → peerlist_lookup c n sender ≡ none
      → Adds c w n sender r
      → Admits sender command n r
  added-Admits sender command n r which new (n', done, more) =
      (n', done, inr (n.next_peer, more, new, which))

  announced-Admits :
      (peer : Option ℕ) (msg : Message PublicKey) (now : ℕ) (n : Node PublicKey)
      → msg.packet.command ≡ command_announcement
      → peerlist_lookup c n msg.sender_public_key ≡ peer
      → Admits msg.sender_public_key msg.packet.command n (cmd_announcement c w peer msg now n)
  announced-Admits none msg now n e new =
      added-Admits _ _ n _ (inl e) new (announcement-Adds c w msg now n new)
  announced-Admits (some q) msg now n e old =
      quiet-Admits _ _ (cmd_announcement c w (some q) msg now) n
        (announcement-IsQuiet c w q msg now)

  responded-Admits :
      (peer : Option ℕ) (msg : Message PublicKey) (n : Node PublicKey)
      → msg.packet.command ≡ command_response
      → peerlist_lookup c n msg.sender_public_key ≡ peer
      → Admits msg.sender_public_key msg.packet.command n (cmd_response c w peer msg n)
  unfolding cmd_response
  responded-Admits none msg n e new = added-Admits _ _ n _ (inr e) new (response-Adds c w msg n new)
  responded-Admits (some q) msg n e old = (n, refl, inl refl)

  dispatch-Admits :
      (peer : Option ℕ) (msg : Message PublicKey) (now : ℕ) (n : Node PublicKey)
      → peerlist_lookup c n msg.sender_public_key ≡ peer
      → Admits msg.sender_public_key msg.packet.command n (dispatch c w peer msg now n)
  unfolding dispatch
  dispatch-Admits peer msg now n e =
      let command = msg.packet.command in
      let rest : M PublicKey (Unit {0}) =
        if command == command_ping
        then cmd_ping c w peer msg now
        else if command == command_pong
        then cmd_pong c w peer msg
        else if command == command_chat
        then cmd_chat c w peer msg
        else pure tt in
      let rest-IsQuiet : IsQuiet rest =
        if-IsQuiet (command == command_ping) _ _ (ping-IsQuiet c w peer msg now) (
          if-IsQuiet (command == command_pong) _ _ (pure-IsQuiet tt)
            (if-IsQuiet (command == command_chat) _ _ (pure-IsQuiet tt) (pure-IsQuiet tt))) in
      elim (Bool-cases (command == command_announcement)) [
        | inl hit ↦
            rw (hit, dispatch)
              (announced-Admits peer msg now n ((==_iff command command_announcement).0 hit) e)
        | inr first ↦ elim (Bool-cases (command == command_response)) [
          | inl hit ↦
              rw (first, hit, dispatch)
                (responded-Admits peer msg n ((==_iff command command_response).0 hit) e)
          | inr second ↦ rw (first, second, dispatch) (quiet-Admits _ _ rest n rest-IsQuiet)
        ]
      ]

  -- The peer list is all that counts of the node before.
  Admits-subst :
      (sender : PublicKey) (command : ℕ) (n m : Node PublicKey)
      (r : Option (Unit {0} × Node PublicKey))
      → m.peer_list ≡ n.peer_list
      → Admits sender command m r
      → Admits sender command n r
  unfolding peerlist_lookup
  Admits-subst sender command n m r e (n', done, inl same) = (n', done, inl (same ∙ e))
  Admits-subst sender command n m r e (n', done, inr (q, more, new, which)) = (
    n',
    done,
    inr (
      q,
      more ∙ ap (map_set (public_key2_compressed c sender) q) e,
      ap (map_get (public_key2_compressed c sender)) (sym e) ∙ new,
      which,
    ),
  )

  process-Admits :
      (wire : NetworkWire PublicKey) (decoded : PacketRaw) (sender : PublicKey) (now : ℕ)
      (n : Node PublicKey)
      → Admits sender decoded.command n (process c w wire decoded sender now n)
  unfolding process allocate touch_in peerlist_lookup
  process-Admits wire decoded sender now n =
      let fresh = new_connection wire.network wire.sender in
      let peer = peerlist_lookup c n sender in
      let n₁ = record n {
        connections = update n.connections n.next_connection fresh;
        next_connection = suc n.next_connection;
      } in
      let (k, n₂, attributed, same) = attribute-IsQuiet peer n.next_connection n₁ in
      let n₃ = record n₂ {
        connections = update n₂.connections k (record (n₂.connections k) { last_packet_in = now });
      } in
      let msg : Message PublicKey = record {
        packet = decoded;
        sender_public_key = sender;
        connection = k;
      } in
      let (n', done, what) =
        Admits-subst sender decoded.command n n₃ (dispatch c w peer msg now n₃) same
          (dispatch-Admits peer msg now n₃ (ap (map_get (public_key2_compressed c sender)) same)) in
      (n', bind_step (attribute peer n.next_connection) _ n₁ attributed ∙ done, what)

  -- A lookup of `j` finds what it found before, or the packet is from a new peer with that key.
  abbrev pub Received : NetworkWire PublicKey → Node PublicKey → Node PublicKey → PublicKey → Type 0
  Received wire n n' j =
      (peerlist_lookup c n' j ≡ peerlist_lookup c n j)
      ⊎ ((decoded : PacketRaw) × (sender : PublicKey) × (packet_decrypt c wire.raw
              wire.receiver_public_key
            ≡ ok (decoded, sender))
          × (is_equal sender w.public_key ≡ false)
          × (decoded.protocol ≡ 0)
          × ((decoded.command ≡ command_announcement) ⊎ (decoded.command ≡ command_response))
          × (bytes_equal (public_key2_compressed c sender) (public_key2_compressed c j) ≡ true)
          × (peerlist_lookup c n sender ≡ none))

  module _ (wire : NetworkWire PublicKey) (now : ℕ) (n : Node PublicKey) where
    abbrev pub Survives : Option (Unit {0} × Node PublicKey) → Type 0
    Survives r =
        (n' : Node PublicKey) × (r ≡ some (tt, n')) × ((j : PublicKey) → Received wire n n' j)

    unchanged-Survives : Survives (some (tt, n))
    unchanged-Survives = (n, refl, λ j. inl refl)

    admitted-Survives :
        (decoded : PacketRaw) (sender : PublicKey) (r : Option (Unit {0} × Node PublicKey))
        → packet_decrypt c wire.raw wire.receiver_public_key ≡ ok (decoded, sender)
        → is_equal sender w.public_key ≡ false
        → decoded.protocol ≡ 0
        → Admits sender decoded.command n r
        → Survives r
    unfolding peerlist_lookup
    admitted-Survives decoded sender r e other zeroth (m, done, inl same) =
        (m, done, λ j. inl (ap (map_get (public_key2_compressed c j)) same))
    admitted-Survives decoded sender r e other zeroth (m, done, inr (q, more, new, which)) = (
      m,
      done,
      λ j.
          let set =
            map_get-map_set (public_key2_compressed c sender) (public_key2_compressed c j) q
              n.peer_list in
          let looked = ap (map_get (public_key2_compressed c j)) more ∙ set in
          elim (Bool-cases
            (bytes_equal (public_key2_compressed c sender) (public_key2_compressed c j))) [
              | inl hit ↦ inr (decoded, sender, e, other, zeroth, which, hit, new)
              | inr miss ↦ inl (cc)
            ],
    )

    receive-Survives :
        (o : Outcome (PacketRaw × PublicKey))
        → packet_decrypt c wire.raw wire.receiver_public_key ≡ o
        → o ≢ panic
        → Survives (receive c w wire o now n)
    unfolding receive
    receive-Survives panic e h = absurd (h refl)
    receive-Survives (err text) e h = unchanged-Survives
    receive-Survives (ok (decoded, sender)) e h = elim (Bool-cases (is_equal sender w.public_key)) [
      | inl own ↦ rw own unchanged-Survives
      | inr other ↦ elim (Bool-cases (decoded.protocol == 0)) [
        | inl zeroth ↦
            rw (other, zeroth)
              (admitted-Survives decoded sender _ e other ((==_iff decoded.protocol 0).0 zeroth)
                (process-Admits wire decoded sender now n))
        | inr later ↦ rw (other, later) unchanged-Survives
      ]
    ]

    -- `packetWorker` returns on every packet that a listener passes on (`Listen`, or one of
    -- `BroadcastIPv4Listen` and `MulticastIPv6Listen`), whatever is in it and in whatever state the
    -- node is. After it, a lookup of a key in the peer list finds what it found before, unless the
    -- key is that of the packet's sender, who was unknown, is another node, signed the packet, and
    -- announced itself or responded in protocol version 0.
    pub packet_worker-Survives :
        (raw : List ℕ) (k : ℕ) (sender : UdpAddr) (a : Adapters)
        → (accept_unicast raw ≡ some wire.raw) ⊎ (accept_discovery k sender raw a ≡ some wire.raw)
        → Survives (packet_worker c w wire now n)
    unfolding packet_worker
    packet_worker-Survives raw k sender a passed = receive-Survives _ refl (
        packet_decrypt-panic_free c wire.raw wire.receiver_public_key
          (passed-length raw wire.raw k sender a passed))
