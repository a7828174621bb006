-- ===== src/Node/Sending/Quiet.antt =====
-- Connection.go: what all sending has in common.
use peernet_core.Prelude.{
  ok, ◌⊎◌, ℕ, suc, ◌+◌, ◌<◌, ◌≡◌, refl, ◌∙◌, true, List, [], ◌∷◌, length, Option, none, some,
  String, ◌≤◌, ◌⊎◌, Outcome-cases, err, if◌then◌else◌, ◌==◌, arith, Bool-cases, inl, inr,
}
use peernet_core.Ip.{Bytes, is_ipv6}
use peernet_core.Crypto.{Crypto}
use peernet_core.Packet.{PacketRaw, packet_encrypt, packet_length_min}
use peernet_core.Packet.RoundTrip.{packet_encrypt-panic_iff}
use peernet_core.Network.{is_network_error_fatal}
use peernet_core.Slice.{items}
use peernet_core.Connection.{UdpAddr, get_connections}
use peernet_core.Node.{Node, World, M, pure, ◌>>=◌, bind_step}
use peernet_core.Node.Quiet.{IsQuiet, bind-IsQuiet, pure-IsQuiet, if-IsQuiet}
use peernet_core.Node.Sending.Laws.{encrypt_lem}
use peernet_core.Node.Sending.{
  send, send_raw, send_retry, send_to, broadcast, broadcast_active, network_send, touch_out,
  count_sent, invalidate, encrypt, with_raw, send_connection, skips, send_networks,
  send_all_networks, to16_or_nil,
}

module _ {K : Type 0} where
  touch_out-IsQuiet : (k now : ℕ) → IsQuiet {K = K} (touch_out k now)
  unfolding touch_out
  touch_out-IsQuiet k now n = (tt, _, refl, refl)

  count_sent-IsQuiet : (q : ℕ) → IsQuiet {K = K} (count_sent q)
  unfolding count_sent
  count_sent-IsQuiet q n = (tt, _, refl, refl)

  pub invalidate-IsQuiet : (q k now : ℕ) → IsQuiet {K = K} (invalidate q k now)
  unfolding invalidate
  invalidate-IsQuiet q k now n = (tt, _, refl, refl)

-- A packet that is far from the lengths at which `packetGarbage` panics.
abbrev pub IsShort : PacketRaw → Type 0
IsShort p = length p.payload < 416

module _ (c : Crypto) (w : World c) where
  open c use {PublicKey}

  network_send-IsQuiet :
      (network : ℕ) (ip : Bytes) (port : ℕ) (raw : List ℕ)
      → IsQuiet (network_send c w network ip port raw)
  unfolding network_send
  network_send-IsQuiet network ip port raw n = (_, _, refl, refl)

  pub send_to-IsQuiet : (k : ℕ) (raw : List ℕ) (now : ℕ) → IsQuiet (send_to c w k raw now)
  unfolding send_to
  send_to-IsQuiet k raw now = bind-IsQuiet (touch_out k now) _ (touch_out-IsQuiet k now) λ _. λ n.
      network_send-IsQuiet (n.connections k).network (n.connections k).address.ip
        (n.connections k).address.port raw n

  broadcast-IsQuiet : (ks : List ℕ) (raw : List ℕ) (now : ℕ) → IsQuiet (broadcast c w ks raw now)
  unfolding broadcast
  broadcast-IsQuiet [] raw now = pure-IsQuiet tt
  broadcast-IsQuiet (k ∷ ks) raw now =
      bind-IsQuiet (send_to c w k raw now) _ (send_to-IsQuiet k raw now)
        (λ _. broadcast-IsQuiet ks raw now)

  broadcast_active-IsQuiet :
      (q : ℕ) (raw : List ℕ) (now : ℕ) → IsQuiet (broadcast_active c w q raw now)
  unfolding broadcast_active
  broadcast_active-IsQuiet q raw now n =
      bind-IsQuiet (broadcast c w (items (get_connections (n.peers q) true)) raw now) _
        (broadcast-IsQuiet _ raw now) (λ _. pure-IsQuiet none) n

  send_retry-IsQuiet :
      (q : ℕ) (raw : List ℕ) (now k : ℕ) (error : Option String)
      → IsQuiet (send_retry c w q raw now k error)
  unfolding send_retry
  send_retry-IsQuiet q raw now k none = pure-IsQuiet none
  send_retry-IsQuiet q raw now k (some e) =
      bind-IsQuiet (if is_network_error_fatal (some e) then invalidate q k now else pure tt) _
        (if-IsQuiet (is_network_error_fatal (some e)) _ _ (invalidate-IsQuiet q k now)
          (pure-IsQuiet tt))
        (λ _. broadcast_active-IsQuiet q raw now)

  send_raw-IsQuiet :
      (q : ℕ) (raw : List ℕ) (now : ℕ) (latest : Option ℕ) → IsQuiet (send_raw c w q raw now latest)
  unfolding send_raw
  send_raw-IsQuiet q raw now none = broadcast_active-IsQuiet q raw now
  send_raw-IsQuiet q raw now (some k) =
      bind-IsQuiet (send_to c w k raw now) _ (send_to-IsQuiet k raw now)
        (send_retry-IsQuiet q raw now k)

  never_near :
      (payload : List ℕ)
      → length payload < 416
      → (((489 ≤ packet_length_min + length payload) × (packet_length_min + length payload < 508))
          ⊎ ((1453 ≤ packet_length_min + length payload)
              × (packet_length_min + length payload < 1472)))
      → ⊥
  never_near payload short (inl h) = omega arith
  never_near payload short (inr h) = omega arith

  encrypt_err :
      (receiver : PublicKey) (packet : PacketRaw) (text : String) (n : Node PublicKey)
      → packet_encrypt c (w.rand n.draws) w.private_key receiver (record packet { protocol = 0 })
        ≡ err text
      → encrypt c w receiver packet n ≡ some (err text, record n { draws = suc n.draws })
  unfolding encrypt
  encrypt_err receiver packet text n e = rw (e, encrypt) refl

  -- A short packet is encrypted, or the encryption fails; it does not panic.
  pub encrypt-cases :
      (receiver : PublicKey) (packet : PacketRaw) (n : Node PublicKey)
      → IsShort packet
      → ((text : String) × (encrypt c w receiver packet n
            ≡ some (err text, record n { draws = suc n.draws })))
        ⊎ ((raw : List ℕ) × (encrypt c w receiver packet n
              ≡ some (ok raw, record n { draws = suc n.draws })))
  encrypt-cases receiver packet n short =
      elim (Outcome-cases (
        packet_encrypt c (w.rand n.draws) w.private_key receiver
          (record packet { protocol = 0 }))) [
            | inl e ↦ absurd (
                never_near packet.payload short (
                  (packet_encrypt-panic_iff c (w.rand n.draws) (record packet { protocol = 0 })
                      w.private_key receiver).0
                    e))
            | inr (inl (text, e)) ↦ inl (text, encrypt_err receiver packet text n e)
            | inr (inr (raw, e)) ↦ inr (raw, encrypt_lem c w receiver packet raw n e)
          ]

  pub encrypted-IsQuiet :
      (receiver : PublicKey) (packet : PacketRaw) (f : List ℕ → M PublicKey (Option String))
      → IsShort packet
      → ((raw : List ℕ) → IsQuiet (f raw))
      → IsQuiet (encrypt c w receiver packet >>= λ r. with_raw r f)
  encrypted-IsQuiet receiver packet f short hf n = elim (encrypt-cases receiver packet n short) [
    | inl (text, e) ↦
        (some text, _, bind_step (encrypt c w receiver packet) (λ r. with_raw r f) n e, refl)
    | inr (raw, e) ↦
        let (a, n', done, same) = hf raw (record n { draws = suc n.draws }) in
        (a, n', bind_step (encrypt c w receiver packet) (λ r. with_raw r f) n e ∙ done, same)
  ]

  pub send-IsQuiet :
      (q : ℕ) (packet : PacketRaw) (now : ℕ) → IsShort packet → IsQuiet (send c w q packet now)
  unfolding send
  send-IsQuiet q packet now short n = elim (Bool-cases ((n.peers q).connection_active.len == 0)) [
    | inl empty ↦ rw empty (some "no valid connection to peer", n, refl, refl)
    | inr full ↦ rw full (
        encrypted-IsQuiet (n.peers q).public_key packet _ short
          (λ raw.
            bind-IsQuiet (count_sent q) _ (count_sent-IsQuiet q)
              λ _. λ n'. send_raw-IsQuiet q raw now (n'.peers q).connection_latest n')
          n)
  ]

  pub send_connection-IsQuiet :
      (q : ℕ) (packet : PacketRaw) (k now : ℕ)
      → IsShort packet
      → IsQuiet (send_connection c w q packet k now)
  unfolding send_connection
  send_connection-IsQuiet q packet k now short n =
      encrypted-IsQuiet (n.peers q).public_key packet _ short
        (λ raw.
          bind-IsQuiet (count_sent q) _ (count_sent-IsQuiet q) (λ _. send_to-IsQuiet k raw now))
        n

  send_networks-IsQuiet :
      (ks : List ℕ) (remote : UdpAddr) (raw : List ℕ) → IsQuiet (send_networks c w ks remote raw)
  unfolding send_networks
  send_networks-IsQuiet [] remote raw = pure-IsQuiet 0
  send_networks-IsQuiet (k ∷ ks) remote raw = λ n.
      let rest = send_networks-IsQuiet ks remote raw in
      if-IsQuiet (skips (n.adapters.networks k) remote) _ _ rest
        (bind-IsQuiet (network_send c w k remote.ip remote.port raw) _
          (network_send-IsQuiet k remote.ip remote.port raw)
          (λ error.
            bind-IsQuiet (send_networks c w ks remote raw) _ rest (λ count. pure-IsQuiet _)))
        n

  pub send_all_networks-IsQuiet :
      (receiver : PublicKey) (packet : PacketRaw) (remote : UdpAddr)
      → IsShort packet
      → IsQuiet (send_all_networks c w receiver packet remote)
  unfolding send_all_networks
  send_all_networks-IsQuiet receiver packet remote short =
      encrypted-IsQuiet receiver packet _ short λ raw n.
        bind-IsQuiet
          (send_networks c w
            (items (
              if is_ipv6 (to16_or_nil remote.ip)
              then n.adapters.networks6
              else n.adapters.networks4))
            remote raw)
          _ (send_networks-IsQuiet _ remote raw) (λ count. pure-IsQuiet _) n
