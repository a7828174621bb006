-- ===== src/Node/Invariant/Ping.antt =====
-- Commands.go, `autoPingAll`: its two loops over the connections of one peer, in a sound node.
use peernet_core.Prelude.{
  ℕ, zero, suc, ◌+◌, ◌<◌, ◌≤◌, ◌≡◌, refl, ◌∙◌, Bool, true, false, List, Option, none, some,
  if◌then◌else◌, inl, inr, arith, get_elem?, ltb, ◌||◌, ◌&&◌,
}
use peernet_core.Crypto.{Crypto}
use peernet_core.Packet.{PacketRaw}
use peernet_core.Slice.{items}
use peernet_core.Slice.Pointers.{has}
use peernet_core.Connection.{Connection, update, get_connections}
use peernet_core.Connection.Lists.{endpoint}
use peernet_core.Node.{Node, World, Datagram, M, pure, ◌>>=◌, bind_step, local_ip}
use peernet_core.Node.Sending.{
  send_connection, send_to, touch_out, count_sent, network_send, invalidate, encrypt,
}
use peernet_core.Node.Sending.Quiet.{IsShort, encrypt-cases}
use peernet_core.Node.Commands.{
  plain, command_ping, is_older, ping_time, send_ping, check_active, check_inactive,
  remove_inactive, range_connections, ping_peer,
}
use peernet_core.Node.Invariant.{IsSound}
use peernet_core.Node.Invariant.Sending.{touched-IsSound, wire-IsSound}
use peernet_core.Node.Invariant.Looping.{
  Belongs, Looping, start-Looping, invalidated-Looping, sent-Looping, removed-Looping,
}

-- A computation that returns, and keeps what holds of the node.
module _ {K : Type 0} (I : Node K → Type 0) where
  abbrev pub Leaves : {A : Type 0} → Option (A × Node K) → Type 0
  Leaves {A} r = (a : A) × (n' : Node K) × (r ≡ some (a, n')) × I n'

  abbrev pub Keeps : {A : Type 0} → M K A → Type 0
  Keeps m = (n : Node K) → I n → Leaves (m n)

  pub bind-Leaves :
      {A B : Type 0} (m : M K A) (f : A → M K B) (n : Node K)
      → Leaves (m n)
      → ((a : A) → Keeps (f a))
      → Leaves ((m >>= f) n)
  bind-Leaves m f n (a, n₁, e₁, i₁) hf =
      let (b, n₂, e₂, i₂) = hf a n₁ i₁ in (b, n₂, bind_step m f n e₁ ∙ e₂, i₂)

  pub if-Keeps :
      {A : Type 0} (b : Bool) (l r : M K A) → Keeps l → Keeps r → Keeps (if b then l else r)
  if-Keeps true l r hl hr = hl
  if-Keeps false l r hl hr = hr

  pub if-Leaves :
      {A : Type 0} (b : Bool) (l r : M K A) (n : Node K)
      → Leaves (l n)
      → Leaves (r n)
      → Leaves ((if b then l else r) n)
  if-Leaves true l r n hl hr = hl
  if-Leaves false l r n hl hr = hr

  -- The body of a loop, at what was read from the array.
  at-Leaves :
      (at : Option ℕ) (body : ℕ → M K (Unit {0})) (n : Node K)
      → I n
      → ((k : ℕ) → at ≡ some k → Leaves (body k n))
      → (let m : M K (Unit {0}) = elim at [ none ↦ pure tt | some k ↦ body k ] in Leaves (m n))
  at-Leaves none body n held each = (tt, n, refl, held)
  at-Leaves (some k) body n held each = each k refl

module _ (c : Crypto) (w : World c) (owner : ℕ → ℕ) (q : ℕ) (active? : Bool) (bound : List ℕ)
    (count : ℕ) where
  open c use {PublicKey}

  abbrev I : Node PublicKey → Type 0
  I = Looping owner q active? bound count

  -- What is not in the invariant, and what keeps endpoints and statuses.
  wire-Looping :
      (n : Node PublicKey) (out : List Datagram) (draws : ℕ)
      → I n
      → I (record n { wire = out; draws = draws })
  wire-Looping n out draws loop = record {
    sound = wire-IsSound owner n out draws loop.sound;
    inside = loop.inside;
    fine = loop.fine;
    fewer = loop.fewer;
  }

  touched-Looping :
      (n : Node PublicKey) (k : ℕ) (v : Connection)
      → endpoint (local_ip n) v ≡ endpoint (local_ip n) (n.connections k)
      → v.status ≡ (n.connections k).status
      → I n
      → I (record n { connections = update n.connections k v })
  touched-Looping n k v ends status loop = record {
    sound = touched-IsSound owner n k v ends status loop.sound;
    inside = loop.inside;
    fine = loop.fine;
    fewer = loop.fewer;
  }

  touch_out-Keeps : (k now : ℕ) → Keeps I (touch_out k now)
  unfolding touch_out
  touch_out-Keeps k now n loop = (tt, _, refl, touched-Looping n k _ refl refl loop)

  count_sent-Keeps : Keeps I (count_sent q)
  unfolding count_sent
  count_sent-Keeps n loop = (tt, _, refl, sent-Looping owner q active? bound count n loop)

  send_to-Keeps : (k : ℕ) (raw : List ℕ) (now : ℕ) → Keeps I (send_to c w k raw now)
  unfolding send_to network_send
  send_to-Keeps k raw now n loop =
      bind-Leaves I (touch_out k now) _ n (touch_out-Keeps k now n loop)
        (λ _ m held. (_, _, refl, wire-Looping m _ _ held))

  send_connection-Keeps :
      (packet : PacketRaw) (k now : ℕ)
      → IsShort packet
      → Keeps I (send_connection c w q packet k now)
  unfolding send_connection
  send_connection-Keeps packet k now short n loop =
      elim (encrypt-cases c w (n.peers q).public_key packet n short) [
        | inl (text, e) ↦ (
          some text,
          _,
          bind_step (encrypt c w (n.peers q).public_key packet) _ n e,
          wire-Looping n _ _ loop,
        )
        | inr (raw, e) ↦
            let (a, n', done, held) =
              bind-Leaves I (count_sent q) (λ _. send_to c w k raw now)
                (record n { draws = suc n.draws }) (count_sent-Keeps _ (wire-Looping n _ _ loop))
                (λ _. send_to-Keeps k raw now) in
            (a, n', bind_step (encrypt c w (n.peers q).public_key packet) _ n e ∙ done, held)
      ]

  invalidate-Keeps : (k now : ℕ) → owner k ≡ q → Keeps I (invalidate q k now)
  unfolding invalidate
  invalidate-Keeps k now mine n loop =
      (tt, _, refl, invalidated-Looping owner q active? bound count n loop k now mine)

  pub send_ping-Keeps : (k now : ℕ) → owner k ≡ q → Keeps I (send_ping c w q k now)
  unfolding send_ping
  send_ping-Keeps k now mine n loop =
      bind-Leaves I (send_connection c w q (plain command_ping) k now) _ n
        (send_connection-Keeps (plain command_ping) k now (omega arith) n loop)
        (λ error m held.
          if-Keeps I _ _ _ (invalidate-Keeps k now mine) (λ n' h. (tt, n', refl, h))
            (record m {
              connections =
                  update m.connections k (record (m.connections k) { last_ping_out = now });
            })
            (touched-Looping m k _ refl refl held))

  pub check_active-Keeps : (k now : ℕ) → owner k ≡ q → Keeps I (check_active c w q k now)
  unfolding check_active
  check_active-Keeps k now mine n =
      if-Keeps I _ _ _ (invalidate-Keeps k now mine)
        (if-Keeps I _ _ _ (send_ping-Keeps k now mine) (λ n' h. (tt, n', refl, h))) n

  -- A range loop, whose body keeps the invariant at each connection that belongs to the list.
  pub range-Keeps :
      (body : ℕ → M PublicKey (Unit {0}))
      → ((k : ℕ) (n : Node PublicKey)
          → I n
          → Belongs owner q active? (n.peers q) k
          → Leaves I (body k n))
      → (i more : ℕ) → i + more ≤ count
      → Keeps I (range_connections c w active? body q i more)
  unfolding range_connections
  range-Keeps body each i zero within n loop = (tt, n, refl, loop)
  range-Keeps body each i (suc more) within n loop =
      bind-Leaves I
        (elim (get_elem? (get_connections (n.peers q) active?).array i) [
          | none ↦ pure tt
          | some k ↦ body k
        ])
        _ n
        (at-Leaves I (get_elem? (get_connections (n.peers q) active?).array i) body n loop
          (λ k e. each k n loop (loop.fine i k (omega arith) e)))
        (λ _. range-Keeps body each (suc i) more (omega arith))

module _ (c : Crypto) (w : World c) (owner : ℕ → ℕ) (q : ℕ) (bound : List ℕ) (count now : ℕ) where
  open c use {PublicKey}

  remove_inactive-Leaves :
      (k : ℕ) (n : Node PublicKey)
      → Looping owner q false bound count n
      → Belongs owner q false (n.peers q) k
      → Leaves (Looping owner q false bound count) (remove_inactive c w q k n)
  unfolding remove_inactive
  remove_inactive-Leaves k n loop mine =
      (tt, _, refl, removed-Looping owner q bound count n loop k mine)

  check_inactive-Leaves :
      (k : ℕ) (n : Node PublicKey)
      → Looping owner q false bound count n
      → Belongs owner q false (n.peers q) k
      → Leaves (Looping owner q false bound count) (check_inactive c w q k now n)
  unfolding check_inactive
  check_inactive-Leaves k n loop mine =
      let I = Looping owner q false bound count in
      let p = n.peers q in
      let v = n.connections k in
      let ping = send_ping-Keeps c w owner q false bound count k now mine.0 in
      let due = is_older v.last_ping_out ping_time 1 now in
      if-Leaves I
        ((ltb 0 p.connection_active.len || ltb 2 p.connection_inactive.len) && ltb v.expires now)
        (remove_inactive c w q k) (if due then send_ping c w q k now else pure tt) n
        (remove_inactive-Leaves k n loop mine)
        (if-Keeps I due _ _ ping (λ n' h. (tt, n', refl, h)) n loop)

module _ (c : Crypto) (w : World c) (owner : ℕ → ℕ) (now : ℕ) where
  open c use {PublicKey}

  -- The loop over the inactive connections.
  pub inactive-Leaves :
      (q : ℕ) (bound : List ℕ) (n : Node PublicKey)
      → IsSound owner n
      → q < n.next_peer
      → ((k : ℕ) → has k (items (n.peers q).connection_active) ≡ true → has k bound ≡ true)
      → let count = (n.peers q).connection_inactive.len in
        Leaves
          (Looping owner q false bound count)
          (range_connections c w false (λ k. check_inactive c w q k now) q 0 count n)
  unfolding get_connections
  inactive-Leaves q bound n sound inside fewer =
      let count = (n.peers q).connection_inactive.len in
      range-Keeps c w owner q false bound count (λ k. check_inactive c w q k now)
        (check_inactive-Leaves c w owner q bound count now) 0 count (omega arith) n
        (start-Looping owner q false bound n sound inside fewer)

  -- The loop over the active connections, from one of them on.
  pub active-Leaves :
      (q : ℕ) (bound : List ℕ) (count i more : ℕ) (n : Node PublicKey)
      → i + more ≤ count
      → Looping owner q true bound count n
      → Leaves
          (Looping owner q true bound count)
          (range_connections c w true (λ k. check_active c w q k now) q i more n)
  active-Leaves q bound count i more n within loop =
      range-Keeps c w owner q true bound count (λ k. check_active c w q k now)
        (λ k m held mine. check_active-Keeps c w owner q true bound count k now mine.0 m held) i
        more within n loop

  -- `autoPingAll` for one peer of a sound node.
  pub ping_peer-Leaves :
      (q : ℕ) (n : Node PublicKey)
      → IsSound owner n
      → q < n.next_peer
      → Leaves (IsSound owner) (ping_peer c w q now n)
  unfolding ping_peer get_connections
  ping_peer-Leaves q n sound inside =
      let bound = items (n.peers q).connection_active in
      let count = (n.peers q).connection_active.len in
      let loop = start-Looping owner q true bound n sound inside (λ d m. m) in
      let (_, n₁, e₁, first) = active-Leaves q bound count 0 count n (omega arith) loop in
      let (_, n₂, e₂, second) = inactive-Leaves q bound n₁ first.sound first.inside first.fewer in
      (
        tt,
        n₂,
        bind_step (range_connections c w true (λ k. check_active c w q k now) q 0 count) _ n e₁
            ∙ e₂,
        second.sound,
      )
