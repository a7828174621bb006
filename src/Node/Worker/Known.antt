-- ===== src/Node/Worker/Known.antt =====
-- Network.go, `packetWorker`: the packets of peers that are known.
use peernet_core.Prelude.{
  ℕ, suc, ◌≡◌, ◌≢◌, refl, sym, ap, ◌∙◌, subst, false, Option, some, ◌==◌, ==_iff, arith, Bool-cases,
  inl, inr,
}
use peernet_core.Ip.{Bytes}
use peernet_core.Ip.Canonical.{canonical}
use peernet_core.Crypto.{Crypto}
use peernet_core.Packet.{PacketRaw}
use peernet_core.Slice.Pointers.{has}
use peernet_core.Connection.{Store, Connection, PeerInfo, active, update, register_connection}
use peernet_core.Connection.Lists.{endpoint}
use peernet_core.Connection.Invariant.{connections, IsConsistent}
use peernet_core.Connection.Moves.{update-ne, update_self, endpoint-update}
use peernet_core.Connection.Arrival.{register-Registered}
use peernet_core.Connection.Frame.{IsConsistent-agree}
use peernet_core.Node.{Node, World, bind_step, local_ip, update_peer, update_peer_self}
use peernet_core.Node.Peerlist.{peerlist_lookup}
use peernet_core.Node.Sending.{add_uint64}
use peernet_core.Node.Commands.{Message, cmd_response, command_announcement, command_ping}
use peernet_core.Node.Worker.{
  NetworkWire, new_connection, allocate, count_received, register, touch_in, attribute, dispatch,
  process,
}

-- A change of a connection that keeps its endpoint and its status.
pub touched-IsConsistent :
    (local_ip : ℕ → Bytes) (h : Store) {K : Type 0} (p : PeerInfo K) (k : ℕ) (v : Connection)
    → endpoint local_ip v ≡ endpoint local_ip (h k)
    → v.status ≡ (h k).status
    → IsConsistent local_ip h p
    → IsConsistent local_ip (update h k v) p
touched-IsConsistent local_ip h p k v e s inv =
    IsConsistent-agree local_ip h (update h k v) p
      (λ d m. (
        endpoint-update local_ip h k v e d,
        elim (Bool-cases (d == k)) [
          | inl hit ↦ rw (hit, (==_iff d k).0 hit) s
          | inr miss ↦ rw miss refl
        ],
      ))
      inv

-- The statistics do not matter.
pub counted-IsConsistent :
    (local_ip : ℕ → Bytes) (h : Store) {K : Type 0} (p : PeerInfo K) (stats : ℕ)
    → IsConsistent local_ip h p
    → IsConsistent local_ip h (record p { stats_packet_received = stats })
counted-IsConsistent local_ip h p stats inv = record {
  active_slice = inv.active_slice;
  inactive_slice = inv.inactive_slice;
  distinct = inv.distinct;
  listed = inv.listed;
  active_status = inv.active_status;
  inactive_status = inv.inactive_status;
}

-- The connection is stored where the peer has none.
pub fresh-IsConsistent :
    (local_ip : ℕ → Bytes) (h : Store) {K : Type 0} (p : PeerInfo K) (k : ℕ) (v : Connection)
    → has k (connections p) ≡ false
    → IsConsistent local_ip h p
    → IsConsistent local_ip (update h k v) p
fresh-IsConsistent local_ip h p k v gone inv =
    IsConsistent-agree local_ip h (update h k v) p
      (λ d m.
        let same : update h k v d ≡ h d =
          update-ne h k d v (λ e. absurd (cc (ap (λ (z : ℕ). has z (connections p)) e))) in
        (ap (endpoint local_ip) same, ap (λ (z : Connection). z.status) same))
      inv

module _ (c : Crypto) (w : World c) where
  open c use {PublicKey}

  -- A peer's other commands change nothing.
  dispatch_idle :
      (peer : Option ℕ) (q : ℕ) (msg : Message PublicKey) (now : ℕ) (n : Node PublicKey)
      → peer ≡ some q
      → msg.packet.command ≢ command_announcement
      → msg.packet.command ≢ command_ping
      → dispatch c w peer msg now n ≡ some (tt, n)
  unfolding dispatch cmd_response
  dispatch_idle peer q msg now n e ne0 ne2 = rw e (ground arith)

  -- The peer's connection that a packet was credited to.
  abbrev pub Credited :
      NetworkWire PublicKey → ℕ → ℕ → Node PublicKey → Option (Unit {0} × Node PublicKey) → Type 0
  Credited wire now q n r =
      (n' : Node PublicKey) × (k : ℕ) × (r ≡ some (tt, n'))
      × IsConsistent (local_ip n') n'.connections (n'.peers q)
      × ((n'.peers q).connection_latest ≡ some k)
      × ((n'.connections k).status ≡ active)
      × ((n'.connections k).last_packet_in ≡ now)
      × ((n'.connections k).address.port ≡ wire.sender.port)
      × (endpoint (local_ip n') (n'.connections k)
          ≡ (canonical wire.sender.ip, canonical (local_ip n wire.network)))

  -- A packet from a known peer whose connections are consistent, with another command than an
  -- announcement or a ping, leaves them consistent. The latest connection is then one that is
  -- active, has the sender's IP and port and the local IP of the network that received the packet,
  -- and has the time of the packet as its last. The next free pointer must not be in the peer's
  -- lists.
  pub process-Credited :
      (wire : NetworkWire PublicKey) (decoded : PacketRaw) (sender : PublicKey) (now q : ℕ)
      (n : Node PublicKey)
      → peerlist_lookup c n sender ≡ some q
      → IsConsistent (local_ip n) n.connections (n.peers q)
      → has n.next_connection (connections (n.peers q)) ≡ false
      → decoded.command ≢ command_announcement
      → decoded.command ≢ command_ping
      → Credited wire now q n (process c w wire decoded sender now n)
  unfolding process allocate touch_in peerlist_lookup attribute count_received register
  process-Credited wire decoded sender now q n known inv gone ne0 ne2 =
      let v = new_connection wire.network wire.sender in
      let h₁ = update n.connections n.next_connection v in
      let p₁ = record (n.peers q) {
        stats_packet_received = add_uint64 (n.peers q).stats_packet_received;
      } in
      let n₁ = record n { connections = h₁; next_connection = suc n.next_connection } in
      let stored = update_self n.connections n.next_connection v in
      let p = update_peer n.peers q p₁ q in
      let ready : IsConsistent (local_ip n) h₁ p =
        subst (IsConsistent (local_ip n) h₁) (sym (update_peer_self n.peers q p₁)) (
          counted-IsConsistent (local_ip n) h₁ (n.peers q) _ (
            fresh-IsConsistent (local_ip n) n.connections (n.peers q) n.next_connection v gone
              inv)) in
      let r = register_connection (local_ip n) h₁ p n.next_connection in
      let (sound, latest, ends, port, status, _) =
        register-Registered (local_ip n) h₁ p ready n.next_connection
          (ap (λ (z : Connection). z.status) stored) in
      let h' = r.0 in
      let p' = r.1 in
      let k = r.2 in
      let n₂ = record n₁ {
        connections = h';
        peers = update_peer (update_peer n.peers q p₁) q p';
      } in
      let touched = record (h' k) { last_packet_in = now } in
      let n₃ = record n₂ { connections = update h' k touched } in
      let msg : Message PublicKey = record {
        packet = decoded;
        sender_public_key = sender;
        connection = k;
      } in
      let here = update_peer_self (update_peer n.peers q p₁) q p' in
      let at_k = update_self h' k touched in
      let attributed : attribute (peerlist_lookup c n sender) n.next_connection n₁ ≡ some (k, n₂) =
        rw known refl in
      (
        n₃,
        k,
        bind_step (attribute (peerlist_lookup c n sender) n.next_connection) _ n₁ attributed
            ∙ dispatch_idle (peerlist_lookup c n sender) q msg now n₃ known ne0 ne2,
        subst (IsConsistent (local_ip n) n₃.connections) (sym here)
            (touched-IsConsistent (local_ip n) h' p' k touched refl refl sound),
        ap (λ (z : PeerInfo PublicKey). z.connection_latest) here ∙ latest,
        ap (λ (z : Connection). z.status) at_k ∙ status,
        ap (λ (z : Connection). z.last_packet_in) at_k,
        ap (λ (z : Connection). z.address.port) at_k
            ∙ port
            ∙ ap (λ (z : Connection). z.address.port) stored,
        ap (endpoint (local_ip n)) at_k ∙ ends ∙ ap (endpoint (local_ip n)) stored,
      )
