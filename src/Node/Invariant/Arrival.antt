-- ===== src/Node/Invariant/Arrival.antt =====
-- Network.go, `packetWorker`: the changes that a packet makes to a sound node.
use mathlib.Core.List.{Nodup-cons, Nodup-nil, not-mem-nil}
use peernet_core.Prelude.{
  ℕ, suc, ◌<◌, ◌≡◌, ◌≢◌, refl, ap, ◌∙◌, subst, true, [], ◌∷◌, length, some, if◌then◌else◌, ◌==◌,
  ==_iff, arith, Bool-cases, inl, inr,
}
use peernet_core.Ip.{Bytes}
use peernet_core.Slice.{nil_slice}
use peernet_core.Slice.Pointers.{has, has-perm}
use peernet_core.Connection.{Store, Connection, active, update, register_connection}
use peernet_core.Connection.Lists.{endpoint}
use peernet_core.Connection.Invariant.{connections, IsConsistent}
use peernet_core.Connection.Moves.{update-ne}
use peernet_core.Connection.Arrival.{register-Registered}
use peernet_core.Connection.Frame.{IsConsistent-agree, register-outside}
use peernet_core.Node.{Node, local_ip, update_peer}
use peernet_core.Node.Invariant.{IsSound, peer-IsSound, has-map_set}
use peernet_core.Node.Peerlist.{map_set}
use peernet_core.Node.Sending.{add_uint64}
use peernet_core.Node.Worker.Known.{counted-IsConsistent}

-- The owners, with the new connection's.
abbrev pub with_owner : (ℕ → ℕ) → ℕ → ℕ → ℕ → ℕ
with_owner owner k q d = if d == k then q else owner d

module _ {K : Type 0} (owner : ℕ → ℕ) where
  pub allocated-IsSound :
      (q : ℕ) (v : Connection) (n : Node K)
      → IsSound owner n
      → IsSound (with_owner owner n.next_connection q) (record n {
        connections = update n.connections n.next_connection v;
        next_connection = suc n.next_connection;
      })
  allocated-IsSound q v n sound =
      let apart : (r d : ℕ)
          → r < n.next_peer
          → has d (connections (n.peers r)) ≡ true
          → d ≢ n.next_connection =
        λ r d lt m e. omega (arith, (sound.owned r d lt m).1, e) in
      record {
        consistent = λ r lt.
            IsConsistent-agree (local_ip n) n.connections _ (n.peers r)
              (λ d m.
                let same = update-ne n.connections n.next_connection d v (apart r d lt m) in
                (ap (endpoint (local_ip n)) same, ap (λ (z : Connection). z.status) same))
              (sound.consistent r lt);
        owned = λ r d lt m.
            let (o, l) = sound.owned r d lt m in
            let ne = apart r d lt m in (ground (arith, o, ne), omega (arith, l));
        known = sound.known;
      }

  pub counted-IsSound :
      (q : ℕ) (n : Node K)
      → IsSound owner n
      → q < n.next_peer
      → IsSound owner (record n {
        peers = update_peer n.peers q (record (n.peers q) {
          stats_packet_received = add_uint64 (n.peers q).stats_packet_received;
        });
      })
  counted-IsSound q n sound inside =
      peer-IsSound owner n sound q n.connections _ n.next_connection owner inside
        (counted-IsConsistent (local_ip n) n.connections (n.peers q) _ (sound.consistent q inside))
        (omega arith) (λ d m. sound.owned q d inside m) (λ d ne lt. (refl, refl))

  -- `registerConnection` on a connection that is given to the peer.
  pub registered-IsSound :
      (q k : ℕ) (n : Node K)
      → IsSound owner n
      → q < n.next_peer
      → owner k ≡ q
      → k < n.next_connection
      → (n.connections k).status ≡ active
      → let (h, p, k') = register_connection (local_ip n) n.connections (n.peers q) k in
        IsSound owner (record n { connections = h; peers = update_peer n.peers q p })
  registered-IsSound q k n sound inside mine used fresh =
      let inv = sound.consistent q inside in
      let (good, _, _, _, _, which) =
        register-Registered (local_ip n) n.connections (n.peers q) inv k fresh in
      peer-IsSound owner n sound q _ _ n.next_connection owner inside good (omega arith)
        (λ d m. elim which [
          | inl same ↦ sound.owned q d inside (has-perm d _ _ same m)
          | inr (_, more) ↦
              let m' : has d (k ∷ connections (n.peers q)) ≡ true = has-perm d _ _ more m in
              elim (Bool-cases (k == d)) [
                | inl hit ↦
                    subst (λ z. (owner z ≡ q) × (z < n.next_connection)) ((==_iff k d).0 hit)
                      (mine, used)
                | inr miss ↦ sound.owned q d inside (ground (arith, m', miss))
              ]
        ])
        (λ d ne lt. (
          register-outside (local_ip n) n.connections (n.peers q) k d inv.active_slice
              (elim (Bool-cases (has d (connections (n.peers q)))) [
                | inl there ↦ absurd (ne (sound.owned q d inside there).0)
                | inr gone ↦ gone
              ])
              (λ e. ne (ap owner e ∙ mine)),
          refl,
        ))

  single-IsConsistent :
      (l : ℕ → Bytes) (h : Store) (key : K) (k : ℕ)
      → (h k).status ≡ active
      → IsConsistent l h (record {
        public_key = key;
        connection_active = record { array = k ∷ []; len = length (k ∷ []) };
        connection_inactive = nil_slice;
        connection_latest = some k;
        stats_packet_sent = 0;
        stats_packet_received = 0;
      })
  single-IsConsistent l h key k fresh = record {
    active_slice = omega arith;
    inactive_slice = omega arith;
    distinct = Nodup-cons.1 (not-mem-nil, Nodup-nil);
    listed = ground arith;
    active_status = λ d m. elim (Bool-cases (k == d)) [
      | inl hit ↦ rw hit (subst (λ z. (h z).status ≡ active) ((==_iff k d).0 hit) fresh)
      | inr miss ↦ absurd (ground (arith, m, miss))
    ];
    inactive_status = λ d m. absurd (cc m);
  }

  -- A new peer with one connection that is its own.
  pub added-IsSound :
      (key : K) (k : ℕ) (bytes : Bytes) (n : Node K)
      → IsSound owner n
      → owner k ≡ n.next_peer
      → k < n.next_connection
      → (n.connections k).status ≡ active
      → IsSound owner (record n {
        peers = update_peer n.peers n.next_peer (record {
          public_key = key;
          connection_active = record { array = k ∷ []; len = length (k ∷ []) };
          connection_inactive = nil_slice;
          connection_latest = some k;
          stats_packet_sent = 0;
          stats_packet_received = 0;
        });
        next_peer = suc n.next_peer;
        peer_list = map_set bytes n.next_peer n.peer_list;
      })
  added-IsSound key k bytes n sound mine used fresh = record {
    consistent = λ r lt. elim (Bool-cases (r == n.next_peer)) [
      | inl hit ↦ rw hit (single-IsConsistent (local_ip n) n.connections key k fresh)
      | inr miss ↦ rw miss (sound.consistent r (ground (arith, lt, miss)))
    ];
    owned = λ r d lt. elim (Bool-cases (r == n.next_peer)) [
      | inl hit ↦
          rw (hit, (==_iff r n.next_peer).0 hit)
            (λ m. elim (Bool-cases (k == d)) [
              | inl same ↦
                  subst (λ z. (owner z ≡ n.next_peer) × (z < n.next_connection))
                    ((==_iff k d).0 same) (mine, used)
              | inr other ↦ absurd (ground (arith, m, other))
            ])
      | inr miss ↦ rw miss (sound.owned r d (ground (arith, lt, miss)))
    ];
    known = λ q h. elim (has-map_set bytes n.next_peer q n.peer_list h) [
      | inl new ↦ omega (arith, new)
      | inr old ↦ omega (arith, sound.known q old)
    ];
  }
