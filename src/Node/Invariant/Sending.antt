-- ===== src/Node/Invariant/Sending.antt =====
-- Connection.go: the sending code and the invariant of a node.
use peernet_core.Prelude.{
  ℕ, suc, ◌<◌, ◌≡◌, refl, ap, ◌∙◌, subst, Bool, true, false, List, [], ◌∷◌, Option, none, some,
  String, if◌then◌else◌, ◌==◌, ==_iff, arith, Bool-cases, inl, inr,
}
use peernet_core.Ip.{Bytes}
use peernet_core.Crypto.{Crypto}
use peernet_core.Packet.{PacketRaw}
use peernet_core.Network.{is_network_error_fatal}
use peernet_core.Slice.{items}
use peernet_core.Slice.Pointers.{has-append, has-perm}
use peernet_core.Connection.{
  Store, Connection, PeerInfo, get_connections, invalidate_active_connection, update,
}
use peernet_core.Connection.Lists.{endpoint}
use peernet_core.Connection.Invariant.{IsConsistent, IsListed}
use peernet_core.Connection.Moves.{
  endpoint-update, update-ne, invalidate-Invalidated, store-invalidate,
}
use peernet_core.Node.{Datagram, Node, World, update_peer, M, pure, ◌>>=◌, bind_step, local_ip}
use peernet_core.Node.Sending.{
  send, send_raw, send_retry, send_to, broadcast, broadcast_active, network_send, touch_out,
  count_sent, invalidate, encrypt, add_uint64,
}
use peernet_core.Node.Sending.Quiet.{IsShort, encrypt-cases}
use peernet_core.Node.Invariant.{IsSound, peer-IsSound, store-IsSound}

-- What is not in the invariant.
pub wire-IsSound :
    {K : Type 0} (owner : ℕ → ℕ) (n : Node K) (out : List Datagram) (draws : ℕ)
    → IsSound owner n
    → IsSound owner (record n { wire = out; draws = draws })
wire-IsSound owner n out draws sound = record {
  consistent = sound.consistent;
  owned = sound.owned;
  known = sound.known;
}

pub status-update :
    (h : Store) (k : ℕ) (v : Connection)
    → v.status ≡ (h k).status
    → (d : ℕ) → (update h k v d).status ≡ (h d).status
status-update h k v e d = elim (Bool-cases (d == k)) [
  | inl hit ↦ rw (hit, (==_iff d k).0 hit) e
  | inr miss ↦ rw miss refl
]

-- A change of a connection that keeps its endpoint and its status.
pub touched-IsSound :
    {K : Type 0} (owner : ℕ → ℕ) (n : Node K) (k : ℕ) (v : Connection)
    → endpoint (local_ip n) v ≡ endpoint (local_ip n) (n.connections k)
    → v.status ≡ (n.connections k).status
    → IsSound owner n
    → IsSound owner (record n { connections = update n.connections k v })
touched-IsSound owner n k v e s sound =
    store-IsSound owner n sound (update n.connections k v) (λ d.
      (endpoint-update (local_ip n) n.connections k v e d, status-update n.connections k v s d))

module _ {K : Type 0} (owner : ℕ → ℕ) (q : ℕ) where
  -- A computation on a sound node with peer q returns, and leaves the node sound.
  abbrev pub IsSafe : {A : Type 0} → M K A → Type 0
  IsSafe {A} m =
      (n : Node K)
      → IsSound owner n
      → q < n.next_peer
      → (a : A) × (n' : Node K) × (m n ≡ some (a, n')) × IsSound owner n' × (q < n'.next_peer)

  pub bind-IsSafe :
      {A B : Type 0} (m : M K A) (f : A → M K B)
      → IsSafe m
      → ((a : A) → IsSafe (f a))
      → IsSafe (m >>= f)
  bind-IsSafe m f hm hf n sound inside =
      let (a, n₁, e₁, s₁, i₁) = hm n sound inside in
      let (b, n₂, e₂, s₂, i₂) = hf a n₁ s₁ i₁ in (b, n₂, bind_step m f n e₁ ∙ e₂, s₂, i₂)

  pub pure-IsSafe : {A : Type 0} (a : A) → IsSafe (pure a)
  pure-IsSafe a n sound inside = (a, n, refl, sound, inside)

  pub if-IsSafe :
      {A : Type 0} (b : Bool) (l r : M K A) → IsSafe l → IsSafe r → IsSafe (if b then l else r)
  if-IsSafe true l r hl hr = hl
  if-IsSafe false l r hl hr = hr

  touch_out-IsSafe : (k now : ℕ) → IsSafe (touch_out k now)
  unfolding touch_out
  touch_out-IsSafe k now n sound inside =
      (tt, _, refl, touched-IsSound owner n k _ refl refl sound, inside)

  sent-IsConsistent :
      (l : ℕ → Bytes) (h : Store) (p : PeerInfo K) (stats : ℕ)
      → IsConsistent l h p
      → IsConsistent l h (record p { stats_packet_sent = stats })
  sent-IsConsistent l h p stats inv = record {
    active_slice = inv.active_slice;
    inactive_slice = inv.inactive_slice;
    distinct = inv.distinct;
    listed = inv.listed;
    active_status = inv.active_status;
    inactive_status = inv.inactive_status;
  }

  pub sent-IsSound :
      (n : Node K)
      → IsSound owner n
      → q < n.next_peer
      → IsSound owner (record n {
        peers =
            update_peer n.peers q
              (record (n.peers q) { stats_packet_sent = add_uint64 (n.peers q).stats_packet_sent });
      })
  sent-IsSound n sound inside =
      peer-IsSound owner n sound q n.connections _ n.next_connection owner inside
        (sent-IsConsistent (local_ip n) n.connections (n.peers q) _ (sound.consistent q inside))
        (omega arith) (λ d m. sound.owned q d inside m) (λ d ne lt. (refl, refl))

  count_sent-IsSafe : IsSafe (count_sent q)
  unfolding count_sent
  count_sent-IsSafe n sound inside = (tt, _, refl, sent-IsSound n sound inside, inside)

  -- `invalidateActiveConnection` on a connection of the peer.
  pub invalidated-IsSound :
      (k now : ℕ) (n : Node K)
      → owner k ≡ q
      → IsSound owner n
      → q < n.next_peer
      → let (h, p) = invalidate_active_connection n.connections (n.peers q) k now in
        IsSound owner (record n { connections = h; peers = update_peer n.peers q p })
  invalidated-IsSound k now n mine sound inside =
      let r = invalidate_active_connection n.connections (n.peers q) k now in
      let (good, moved, _, _, _) =
        invalidate-Invalidated (local_ip n) n.connections (n.peers q) (sound.consistent q inside) k
          now in
      peer-IsSound owner n sound q r.0 r.1 n.next_connection owner inside good (omega arith)
        (λ d m. sound.owned q d inside (has-perm d _ _ moved m))
        (λ d ne lt. (
          ap (λ (h : Store). h d) (store-invalidate n.connections (n.peers q) k now)
              ∙ update-ne n.connections k d _ (λ e. ne (ap owner e ∙ mine)),
          refl,
        ))

  invalidate-IsSafe : (k now : ℕ) → owner k ≡ q → IsSafe (invalidate q k now)
  unfolding invalidate
  invalidate-IsSafe k now mine n sound inside =
      (tt, _, refl, invalidated-IsSound k now n mine sound inside, inside)

module _ (c : Crypto) (w : World c) (owner : ℕ → ℕ) (q : ℕ) where
  open c use {PublicKey}

  send_to-IsSafe : (k : ℕ) (raw : List ℕ) (now : ℕ) → IsSafe owner q (send_to c w k raw now)
  unfolding send_to network_send
  send_to-IsSafe k raw now =
      bind-IsSafe owner q (touch_out k now) _ (touch_out-IsSafe owner q k now)
        (λ _ n sound inside. (_, _, refl, wire-IsSound owner n _ _ sound, inside))

  broadcast-IsSafe :
      (ks : List ℕ) (raw : List ℕ) (now : ℕ) → IsSafe owner q (broadcast c w ks raw now)
  unfolding broadcast
  broadcast-IsSafe [] raw now = pure-IsSafe owner q tt
  broadcast-IsSafe (k ∷ ks) raw now =
      bind-IsSafe owner q (send_to c w k raw now) _ (send_to-IsSafe k raw now)
        (λ _. broadcast-IsSafe ks raw now)

  broadcast_active-IsSafe :
      (raw : List ℕ) (now : ℕ) → IsSafe owner q (broadcast_active c w q raw now)
  unfolding broadcast_active
  broadcast_active-IsSafe raw now n =
      bind-IsSafe owner q (broadcast c w (items (get_connections (n.peers q) true)) raw now) _
        (broadcast-IsSafe _ raw now) (λ _. pure-IsSafe owner q none) n

  send_retry-IsSafe :
      (raw : List ℕ) (now k : ℕ) (error : Option String)
      → owner k ≡ q
      → IsSafe owner q (send_retry c w q raw now k error)
  unfolding send_retry
  send_retry-IsSafe raw now k none mine = pure-IsSafe owner q none
  send_retry-IsSafe raw now k (some e) mine =
      bind-IsSafe owner q (if is_network_error_fatal (some e) then invalidate q k now else pure tt)
        _
        (if-IsSafe owner q (is_network_error_fatal (some e)) _ _
          (invalidate-IsSafe owner q k now mine) (pure-IsSafe owner q tt))
        (λ _. broadcast_active-IsSafe raw now)

  send_raw-IsSafe :
      (raw : List ℕ) (now : ℕ) (latest : Option ℕ)
      → ((k : ℕ) → latest ≡ some k → owner k ≡ q)
      → IsSafe owner q (send_raw c w q raw now latest)
  unfolding send_raw
  send_raw-IsSafe raw now none mine = broadcast_active-IsSafe raw now
  send_raw-IsSafe raw now (some k) mine =
      bind-IsSafe owner q (send_to c w k raw now) _ (send_to-IsSafe k raw now)
        (λ error. send_retry-IsSafe raw now k error (mine k refl))

  latest-owned :
      (n : Node PublicKey) (k : ℕ)
      → IsSound owner n
      → q < n.next_peer
      → (n.peers q).connection_latest ≡ some k
      → owner k ≡ q
  latest-owned n k sound inside e =
      let there =
        subst (λ l. IsListed l (items (n.peers q).connection_active)) e
          (sound.consistent q inside).listed in
      (sound.owned q k inside (
        ground (
          arith,
          there,
          has-append k (items (n.peers q).connection_active)
              (items (n.peers q).connection_inactive),
        ))).0

  pub send-IsSafe :
      (packet : PacketRaw) (now : ℕ) → IsShort packet → IsSafe owner q (send c w q packet now)
  unfolding send
  send-IsSafe packet now short n sound inside =
      elim (Bool-cases ((n.peers q).connection_active.len == 0)) [
        | inl empty ↦ rw empty (some "no valid connection to peer", n, refl, sound, inside)
        | inr full ↦ rw full (elim (encrypt-cases c w (n.peers q).public_key packet n short) [
          | inl (text, e) ↦ (
            some text,
            _,
            bind_step (encrypt c w (n.peers q).public_key packet) _ n e,
            wire-IsSound owner n _ _ sound,
            inside,
          )
          | inr (raw, e) ↦
              let (a, n', done, sound', inside') =
                bind-IsSafe owner q (count_sent q) _ (count_sent-IsSafe owner q)
                  (λ _ m s i.
                    send_raw-IsSafe raw now (m.peers q).connection_latest
                      (λ k. latest-owned m k s i) m s i)
                  (record n { draws = suc n.draws }) (wire-IsSound owner n _ _ sound) inside in
              (
                a,
                n',
                bind_step (encrypt c w (n.peers q).public_key packet) _ n e ∙ done,
                sound',
                inside',
              )
        ])
      ]
