-- ===== src/Node/Sending/Laws.antt =====
-- Connection.go, `send`: which datagrams go out.
use mathlib.Core.Path.{fun_ext}
use peernet_core.Prelude.{
  ℕ, suc, ◌≡◌, ◌≢◌, refl, sym, ap, ap₂, ◌∙◌, List, [], ◌∷◌, ◌++◌, map, append_assoc, append-nil,
  Option, none, some, String, ok, if◌then◌else◌, ◌==◌, ==_iff, arith, Bool-cases, inl, inr,
}
use peernet_core.Crypto.{Crypto}
use peernet_core.Packet.{PacketRaw, packet_encrypt}
use peernet_core.Network.{is_network_error_fatal}
use peernet_core.Slice.{items, IsSlice}
use peernet_core.Slice.Pointers.{erase}
use peernet_core.Connection.{
  Store, Connection, PeerInfo, update, invalidate_active_connection, get_connections,
}
use peernet_core.Connection.Moves.{items-invalidate, store-invalidate}
use peernet_core.Node.{Node, World, Datagram, update_peer, bind_step, update_peer_self}
use peernet_core.Node.Sending.{
  send, send_raw, send_retry, send_to, broadcast, broadcast_active, network_send, touch_out,
  count_sent, invalidate, encrypt, add_uint64,
}

-- The datagram to a connection.
abbrev pub datagram : Store → List ℕ → ℕ → Datagram
datagram h raw k = record {
  network = (h k).network;
  ip = (h k).address.ip;
  port = (h k).address.port;
  raw = raw;
}

touched : Store → ℕ → ℕ → Store
touched h k now = update h k (record (h k) { last_packet_out = now })

touch_all : Store → List ℕ → ℕ → Store
touch_all h [] now = h
touch_all h (k ∷ ks) now = touch_all (touched h k now) ks now

datagram-update :
    (h : Store) (k : ℕ) (v : Connection) (raw : List ℕ)
    → datagram (λ _. v) raw k ≡ datagram h raw k
    → datagram (update h k v) raw ≡ datagram h raw
datagram-update h k v raw e = fun_ext λ d. elim (Bool-cases (d == k)) [
  | inl hit ↦ rw (hit, (==_iff d k).0 hit) e
  | inr miss ↦ rw miss refl
]

datagram-touched :
    (h : Store) (k now : ℕ) (raw : List ℕ) → datagram (touched h k now) raw ≡ datagram h raw
unfolding touched
datagram-touched h k now raw = datagram-update h k _ raw refl

module _ (c : Crypto) (w : World c) where
  open c use {PublicKey}

  touched_node : List ℕ → ℕ → ℕ → Node PublicKey → Node PublicKey
  touched_node raw now k n = record n {
    connections = touched n.connections k now;
    wire = n.wire ++ datagram n.connections raw k ∷ [];
  }

  send_to_lem :
      (k now : ℕ) (raw : List ℕ) (n : Node PublicKey)
      → send_to c w k raw now n
        ≡ some (w.write_to n.wire (datagram n.connections raw k), touched_node raw now k n)
  unfolding send_to touch_out network_send touched touched_node
  send_to_lem k now raw n = ground arith

  broadcast_lem :
      (ks : List ℕ) (raw : List ℕ) (now : ℕ) (n : Node PublicKey)
      → broadcast c w ks raw now n
        ≡ some (
          tt,
          record n {
            connections = touch_all n.connections ks now;
            wire = n.wire ++ map (datagram n.connections raw) ks;
          },
        )
  unfolding broadcast touch_all touched_node
  broadcast_lem [] raw now n = rw (append-nil n.wire) refl
  broadcast_lem (k ∷ ks) raw now n =
      bind_step (send_to c w k raw now) (λ _. broadcast c w ks raw now) n (send_to_lem k now raw n)
      ∙ broadcast_lem ks raw now _
      ∙ ap
          (λ l. some (
            tt,
            record n { connections = touch_all (touched n.connections k now) ks now; wire = l },
          ))
          (append_assoc n.wire (datagram n.connections raw k ∷ []) _
            ∙ rw (datagram-touched n.connections k now raw) refl)

  touch_all-datagram :
      (ks : List ℕ) (h : Store) (now : ℕ) (raw : List ℕ)
      → datagram (touch_all h ks now) raw ≡ datagram h raw
  unfolding touch_all
  touch_all-datagram [] h now raw = refl
  touch_all-datagram (k ∷ ks) h now raw =
      touch_all-datagram ks (touched h k now) now raw ∙ datagram-touched h k now raw

  -- The connections that `send` writes to, in order, given what the write to the latest returns.
  abbrev pub attempts : Option ℕ → List ℕ → (ℕ → Option String) → List ℕ
  attempts none active result = active
  attempts (some k) active result = k ∷ elim (result k) [
    | none ↦ []
    | some e ↦ if is_network_error_fatal (some e) then erase k active else active
  ]

  -- What happens to the wire between two states.
  abbrev pub Sends :
      Node PublicKey → List Datagram → Option (Option String × Node PublicKey) → Type 0
  Sends n out r = (n' : Node PublicKey) × (r ≡ some (none, n')) × (n'.wire ≡ n.wire ++ out)

  broadcast_active-Sends :
      (q : ℕ) (raw : List ℕ) (now : ℕ) (n : Node PublicKey)
      → Sends n
          (map (datagram n.connections raw) (items (n.peers q).connection_active))
          (broadcast_active c w q raw now n)
  unfolding broadcast_active get_connections
  broadcast_active-Sends q raw now n = (
    _,
    bind_step (broadcast c w (items (n.peers q).connection_active) raw now) _ n
        (broadcast_lem (items (n.peers q).connection_active) raw now n),
    refl,
  )

  -- The node after `invalidateActiveConnection`.
  abbrev invalidated : ℕ → ℕ → ℕ → Node PublicKey → Node PublicKey
  invalidated q k now n =
      let (h, p) = invalidate_active_connection n.connections (n.peers q) k now in
      record n { connections = h; peers = update_peer n.peers q p }

  out-invalidated :
      (q : ℕ) (raw : List ℕ) (now k : ℕ) (n : Node PublicKey)
      → IsSlice (n.peers q).connection_active
      → map
          (datagram (invalidated q k now n).connections raw)
          (items ((invalidated q k now n).peers q).connection_active)
        ≡ map (datagram n.connections raw) (erase k (items (n.peers q).connection_active))
  out-invalidated q raw now k n sound =
      ap₂ map
        (ap (λ h. datagram h raw) (store-invalidate n.connections (n.peers q) k now)
          ∙ datagram-update n.connections k _ raw refl)
        (ap (λ (p : PeerInfo PublicKey). items p.connection_active) (update_peer_self n.peers q _)
          ∙ items-invalidate n.connections (n.peers q) k now sound)

  retry-Sends :
      (q : ℕ) (raw : List ℕ) (now k : ℕ) (result : Option String) (m : Node PublicKey)
      → IsSlice (m.peers q).connection_active
      → Sends m
          (map (datagram m.connections raw) (elim result [
            | none ↦ []
            | some e ↦
                if is_network_error_fatal (some e)
                then erase k (items (m.peers q).connection_active)
                else items (m.peers q).connection_active
          ]))
          (send_retry c w q raw now k result m)
  unfolding send_retry invalidate
  retry-Sends q raw now k none m sound = (m, refl, sym (append-nil m.wire))
  retry-Sends q raw now k (some e) m sound = elim (Bool-cases (is_network_error_fatal (some e))) [
    | inl fatal ↦
        let (m', done, wire) = broadcast_active-Sends q raw now (invalidated q k now m) in
        rw fatal (m', done, wire ∙ ap (λ l. m.wire ++ l) (out-invalidated q raw now k m sound))
    | inr mild ↦ rw mild (broadcast_active-Sends q raw now m)
  ]

  send_raw-Sends :
      (q : ℕ) (raw : List ℕ) (now : ℕ) (latest : Option ℕ) (n : Node PublicKey)
      → IsSlice (n.peers q).connection_active
      → Sends n
          (map (datagram n.connections raw) (
            attempts latest
              (items (n.peers q).connection_active)
              (λ k. w.write_to n.wire (datagram n.connections raw k))))
          (send_raw c w q raw now latest n)
  unfolding send_raw touched_node
  send_raw-Sends q raw now none n sound = broadcast_active-Sends q raw now n
  send_raw-Sends q raw now (some k) n sound =
      let sent = send_to_lem k now raw n in
      let (n', done, wire) =
        retry-Sends q raw now k (w.write_to n.wire (datagram n.connections raw k))
          (touched_node raw now k n) sound in
      (
        n',
        bind_step (send_to c w k raw now) (send_retry c w q raw now k) n sent ∙ done,
        wire
            ∙ (append_assoc n.wire (datagram n.connections raw k ∷ []) _
                ∙ rw (datagram-touched n.connections k now raw) refl),
      )

  pub encrypt_lem :
      (receiver : PublicKey) (packet : PacketRaw) (raw : List ℕ) (n : Node PublicKey)
      → packet_encrypt c (w.rand n.draws) w.private_key receiver (record packet { protocol = 0 })
        ≡ ok raw
      → encrypt c w receiver packet n ≡ some (ok raw, record n { draws = suc n.draws })
  unfolding encrypt
  encrypt_lem receiver packet raw n e = rw (e, encrypt) refl

  abbrev counted : PeerInfo PublicKey → PeerInfo PublicKey
  counted p = record p { stats_packet_sent = add_uint64 p.stats_packet_sent }

  -- `send` on a peer that has an active connection, when the packet can be encrypted: it returns
  -- no error, and writes exactly this to the sockets: with a latest connection, the packet to that
  -- one and, only if the write failed, to all active ones, without the latest if the error is
  -- fatal; with none, to all active ones. The active list must be a slice of its array.
  pub send_lem :
      (q : ℕ) (packet : PacketRaw) (now : ℕ) (raw : List ℕ) (n : Node PublicKey)
      → (n.peers q).connection_active.len ≢ 0
      → IsSlice (n.peers q).connection_active
      → packet_encrypt c
          (w.rand n.draws)
          w.private_key
          (n.peers q).public_key
          (record packet { protocol = 0 })
        ≡ ok raw
      → Sends n
          (map (datagram n.connections raw) (
            attempts
              (n.peers q).connection_latest
              (items (n.peers q).connection_active)
              (λ k. w.write_to n.wire (datagram n.connections raw k))))
          (send c w q packet now n)
  unfolding send count_sent
  send_lem q packet now raw n some_active sound e =
      elim (Bool-cases ((n.peers q).connection_active.len == 0)) [
        | inl empty ↦ absurd (some_active ((==_iff _ 0).0 empty))
        | inr full ↦
            let same = update_peer_self n.peers q (counted (n.peers q)) in
            let n₁ = record n {
              draws = suc n.draws;
              peers = update_peer n.peers q (counted (n.peers q));
            } in
            let (n', done, wire) =
              send_raw-Sends q raw now (n₁.peers q).connection_latest n₁ (rw same sound) in
            rw full (
              n',
              bind_step (encrypt c w (n.peers q).public_key packet) _ n
                    (encrypt_lem (n.peers q).public_key packet raw n e)
                  ∙ done,
              wire ∙ rw same refl,
            )
      ]

  -- Without an active connection, `send` fails with its error and changes nothing.
  pub send-none :
      (q : ℕ) (packet : PacketRaw) (now : ℕ) (n : Node PublicKey)
      → (n.peers q).connection_active.len ≡ 0
      → send c w q packet now n ≡ some (some "no valid connection to peer", n)
  unfolding send
  send-none q packet now n e = rw e refl
