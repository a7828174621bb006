-- ===== src/Node/Run.antt =====
-- Network.go, Commands.go, Peer ID.go: a node that runs, as a sequence of steps. A step is a packet
-- that a listener passes on to `packetWorker`, a round of `autoPingAll`, or a call of `SendChatAll`,
-- `contactRootPeers`, `sendMulticastBroadcast` or `PeerlistRemove`, in any order and at any time.
-- Rounds of `networkChangeMonitor` are not among the steps.
use peernet_core.Prelude.{
  String, ℕ, ◌<◌, ◌≡◌, sym, ◌∙◌, subst, ◌⊎◌, List, length, Option, some, inl, inr, Option-cases,
}
use peernet_core.Ip.{Bytes}
use peernet_core.Crypto.{Crypto, Rand}
use peernet_core.Config.{Yaml, Settings}
use peernet_core.Identity.{init_peer_id}
use peernet_core.Connection.{UdpAddr}
use peernet_core.Network.{System, accept_unicast, accept_discovery}
use peernet_core.Network.Discovery.Safe.{SystemMasked}
use peernet_core.Node.{Node, World, Datagram}
use peernet_core.Node.Peerlist.{peerlist_remove}
use peernet_core.Node.Peerlist.Refinement.{has-map_delete}
use peernet_core.Node.Commands.{ping_all, send_chat_all}
use peernet_core.Node.Worker.{NetworkWire, packet_worker}
use peernet_core.Node.Invariant.{IsSound}
use peernet_core.Node.Invariant.Worker.{packet_worker-StaysSound}
use peernet_core.Node.Invariant.Sending.{wire-IsSound}
use peernet_core.Node.Invariant.Announcing.{
  IsBlind, known-Preserves, contact_root_peers-Preserves, send_multicast_broadcast-Preserves,
}
use peernet_core.Node.Bootstrap.{RootPeer, contact_root_peers}
use peernet_core.Node.Discovery.{send_multicast_broadcast}
use peernet_core.Node.Invariant.Rounds.{ping_all-LeavesSound, send_chat_all-LeavesSound}
use peernet_core.Node.Start.{Started, init}
use peernet_core.Node.Start.Laws.{init-Ready}

module _ (c : Crypto) where
  open c use {PrivateKey, PublicKey}

  pub data Step (w : World c) (n : Node PublicKey) : Node PublicKey → Type 0 where
    packet :
        (wire : NetworkWire PublicKey) (now : ℕ) (raw : List ℕ) (k : ℕ) (sender : UdpAddr)
        {n' : Node PublicKey}
        → (accept_unicast raw ≡ some wire.raw)
          ⊎ (accept_discovery k sender raw n.adapters ≡ some wire.raw)
        → packet_worker c w wire now n ≡ some (tt, n')
        → Step w n n'
    ping : (now : ℕ) {n' : Node PublicKey} → ping_all c w now n ≡ some (tt, n') → Step w n n'
    chat :
        (text : List ℕ) (now : ℕ) {n' : Node PublicKey}
        → length text < 416
        → send_chat_all c w text now n ≡ some (tt, n')
        → Step w n n'
    contact :
        (roots : List (RootPeer PublicKey)) {n' : Node PublicKey}
        → contact_root_peers c w roots n ≡ some (tt, n')
        → Step w n n'
    announce : {n' : Node PublicKey} → send_multicast_broadcast c w n ≡ some (tt, n') → Step w n n'
    forget : (q : ℕ) → Step w n (peerlist_remove c n q)

  pub data Reach (w : World c) (start : Node PublicKey) : Node PublicKey → Type 0 where
    here : Reach w start start
    later : {m n : Node PublicKey} → Reach w start m → Step w m n → Reach w start n

  -- What can happen to a node, whatever it has been through: a packet that a listener passes on,
  -- a round of `autoPingAll`, a chat message.
  pub data Event (n : Node PublicKey) : Type 0 where
    arrival :
        (wire : NetworkWire PublicKey) (now : ℕ) (raw : List ℕ) (k : ℕ) (sender : UdpAddr)
        → (accept_unicast raw ≡ some wire.raw)
          ⊎ (accept_discovery k sender raw n.adapters ≡ some wire.raw)
        → Event n
    tick : ℕ → Event n
    talk : (text : List ℕ) → ℕ → length text < 416 → Event n

  abbrev pub perform : World c → (n : Node PublicKey) → Event n → Option (Unit {0} × Node PublicKey)
  perform w n (arrival wire now raw k sender passed) = packet_worker c w wire now n
  perform w n (tick now) = ping_all c w now n
  perform w n (talk text now short) = send_chat_all c w text now n

  -- Some ownership of the connections makes the node sound.
  abbrev pub IsOwned : Node PublicKey → Type 0
  IsOwned n = (owner : ℕ → ℕ) × IsSound owner n

  IsOwned-IsBlind : IsBlind IsOwned
  IsOwned-IsBlind n out draws (owner, sound) = (owner, wire-IsSound owner n out draws sound)

  forget-IsOwned : (q : ℕ) (n : Node PublicKey) → IsOwned n → IsOwned (peerlist_remove c n q)
  unfolding peerlist_remove
  forget-IsOwned q n (owner, sound) = (
    owner,
    record {
      consistent = sound.consistent;
      owned = sound.owned;
      known = λ p m. sound.known p (has-map_delete _ p n.peer_list m);
    },
  )

  step-IsOwned : (w : World c) (n n' : Node PublicKey) → Step w n n' → IsOwned n → IsOwned n'
  step-IsOwned w n n' (packet wire now raw k sender passed e) (owner, sound) =
      let (m, owner', done, sound') =
        packet_worker-StaysSound c w owner wire now n raw k sender n.adapters sound passed in
      known-Preserves IsOwned _ _ _ m n' done (owner', sound') e
  step-IsOwned w n n' (ping now e) (owner, sound) =
      let (a, m, done, sound') = ping_all-LeavesSound c w owner now n sound in
      known-Preserves IsOwned _ _ _ m n' done (owner, sound') e
  step-IsOwned w n n' (chat text now short e) (owner, sound) =
      let (a, m, done, sound') = send_chat_all-LeavesSound c w owner text now n short sound in
      known-Preserves IsOwned _ _ _ m n' done (owner, sound') e
  step-IsOwned w n n' (contact roots e) owned =
      contact_root_peers-Preserves c w IsOwned IsOwned-IsBlind roots n tt n' owned e
  step-IsOwned w n n' (announce e) owned =
      send_multicast_broadcast-Preserves c w IsOwned IsOwned-IsBlind n tt n' owned e
  step-IsOwned w n n' (forget q) owned = forget-IsOwned q n owned

  reach-IsOwned :
      (w : World c) (start n : Node PublicKey) → Reach w start n → IsOwned start → IsOwned n
  reach-IsOwned w start n here owned = owned
  reach-IsOwned w start n (later {m} r s) owned =
      step-IsOwned w m n s (reach-IsOwned w start m r owned)

  -- In a sound node every event is dealt with, and is a step.
  perform-Steps :
      (w : World c) (n : Node PublicKey) (event : Event n)
      → IsOwned n
      → (n' : Node PublicKey) × (perform w n event ≡ some (tt, n')) × Step w n n'
  perform-Steps w n (arrival wire now raw k sender passed) (owner, sound) =
      let (n', owner', done, sound') =
        packet_worker-StaysSound c w owner wire now n raw k sender n.adapters sound passed in
      (n', done, packet wire now raw k sender passed done)
  perform-Steps w n (tick now) (owner, sound) =
      let (a, n', done, sound') = ping_all-LeavesSound c w owner now n sound in
      (n', done, ping now done)
  perform-Steps w n (talk text now short) (owner, sound) =
      let (a, n', done, sound') = send_chat_all-LeavesSound c w owner text now n short sound in
      (n', done, chat text now short done)

  module _ (yaml : Yaml) (default_config : Bytes) (os : System) (rand : ℕ → Rand)
      (write_to : List Datagram → Datagram → Option String) (new : Option PrivateKey) (s : Settings)
      (masked : SystemMasked os) where
    abbrev started : Option (Started c)
    started = init c yaml default_config os rand write_to new s

    some-inj : {A : Type 0} {x y : A} → some x ≡ some y → x ≡ y
    some-inj e = cc

    started-IsOwned : (st : Started c) → started ≡ some st → IsOwned st.node
    started-IsOwned st e =
        let (gone, ready) = init-Ready c yaml default_config os rand write_to new s masked in
        elim (Option-cases (init_peer_id c yaml default_config new s)) [
          | inl none' ↦ absurd (cc (sym (gone none') ∙ e))
          | inr ((keys, s₁), had) ↦
              let (st', e', r) = ready keys s₁ had in
              subst (λ (z : Started c). IsOwned z.node) (some-inj (sym e' ∙ e))
                ((λ d. 0), r.sound (λ d. 0))
        ]

    -- A node that `Init` started, after any sequence of packets that listeners pass on, rounds of
    -- `autoPingAll`, calls of `SendChatAll` with texts of less than 416 bytes, and calls of
    -- `contactRootPeers`, `sendMulticastBroadcast` and `PeerlistRemove`: the connections of every
    -- peer are consistent and in use, no connection is in two peers, and the peer list has peers in
    -- use. The masks of the IPv4 addresses that the system reports have at least four bytes.
    pub running-IsOwned :
        (st : Started c) (n : Node PublicKey)
        → started ≡ some st
        → Reach st.world st.node n
        → IsOwned n
    running-IsOwned st n e run = reach-IsOwned st.world st.node n run (started-IsOwned st e)

    -- A node that `Init` started, after any such sequence of steps, does not panic at the next
    -- packet that a listener passes on, the next round of `autoPingAll`, or the next chat message of
    -- less than 416 bytes: the call returns, and leads on to a node that can be reached again. The
    -- masks of the IPv4 addresses that the system reports have at least four bytes.
    pub running-Survives :
        (st : Started c) (n : Node PublicKey) (event : Event n)
        → started ≡ some st
        → Reach st.world st.node n
        → (n' : Node PublicKey) × (perform st.world n event ≡ some (tt, n'))
          × Reach st.world st.node n'
    running-Survives st n event e run =
        let (n', done, step) = perform-Steps st.world n event (running-IsOwned st n e run) in
        (n', done, later run step)
