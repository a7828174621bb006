-- ===== src/Node/Invariant/Announcing.antt =====
-- Bootstrap.go and Connection.go: the messages to nodes that are not peers yet. They change only
-- what was written and which random numbers were taken.
use peernet_core.Prelude.{
  ℕ, ◌≡◌, refl, sym, ap, ◌∙◌, subst, Bool, true, false, List, [], ◌∷◌, Option, none, some, String,
  Outcome, Outcome-cases, ok, err, panic, if◌then◌else◌, inl, inr,
}
use peernet_core.Ip.{Bytes}
use peernet_core.Slice.{items}
use peernet_core.Crypto.{Crypto}
use peernet_core.Packet.{PacketRaw, packet_encrypt}
use peernet_core.Connection.{UdpAddr}
use peernet_core.Network.Discovery.{ipv4_broadcast_port}
use peernet_core.Node.{Node, World, Datagram, M, pure, ◌>>=◌}
use peernet_core.Node.Sending.{
  network_send, encrypt, with_raw, skips, send_networks, send_all_networks,
}
use peernet_core.Node.Commands.{plain, command_announcement}
use peernet_core.Node.Bootstrap.{RootPeer, contact, contact_root_peers}
use peernet_core.Node.Discovery.{
  announce_to, send_broadcasts, broadcast_ipv4_send, multicast_ipv6_send, for_networks,
  send_multicast_broadcast,
}

-- A property of nodes that does not look at what was written nor at the random numbers.
abbrev pub IsBlind : {K : Type 0} → (Node K → Type 0) → Type 0
IsBlind {K} I =
    (n : Node K) (out : List Datagram) (draws : ℕ)
    → I n
    → I (record n { wire = out; draws = draws })

module _ {K : Type 0} (I : Node K → Type 0) where
  -- A computation that keeps the property, if it returns.
  abbrev pub Preserves : {A : Type 0} → M K A → Type 0
  Preserves {A} m = (n : Node K) (a : A) (n' : Node K) → I n → m n ≡ some (a, n') → I n'

  after-Preserves :
      {A B : Type 0} (r : Option (A × Node K)) (f : A → M K B) (b : B) (n' : Node K)
      → ((a : A) (m : Node K) → r ≡ some (a, m) → I m)
      → ((a : A) → Preserves (f a))
      → elim r [ none ↦ none | some (a, m) ↦ f a m ] ≡ some (b, n')
      → I n'
  after-Preserves none f b n' first next e = absurd (cc)
  after-Preserves (some (a, m)) f b n' first next e = next a m b n' (first a m refl) e

  pub bind-Preserves :
      {A B : Type 0} (m : M K A) (f : A → M K B)
      → Preserves m
      → ((a : A) → Preserves (f a))
      → Preserves (m >>= f)
  bind-Preserves m f first next n b n' held =
      after-Preserves (m n) f b n' (λ a n₁ e. first n a n₁ held e) next

  -- The node that a step left, or one that stood before it.
  abbrev node_or : {A : Type 0} → Node K → Option (A × Node K) → Node K
  node_or n none = n
  node_or n (some (_, n')) = n'

  -- A step that is known to leave a node with the property.
  pub known-Preserves :
      {A : Type 0} (r : Option (A × Node K)) (a b : A) (n n' : Node K)
      → r ≡ some (a, n)
      → I n
      → r ≡ some (b, n')
      → I n'
  known-Preserves r a b n n' e held e' = subst I (ap (node_or n) (sym e ∙ e')) held

  pub pure-Preserves : {A : Type 0} (a : A) → Preserves (pure a)
  pure-Preserves a n b n' held = known-Preserves (some (a, n)) a b n n' refl held

  pub if-Preserves :
      {A : Type 0} (b : Bool) (l r : M K A)
      → Preserves l
      → Preserves r
      → Preserves (if b then l else r)
  if-Preserves true l r hl hr = hl
  if-Preserves false l r hl hr = hr

module _ (c : Crypto) (w : World c) (I : Node (Crypto.PublicKey c) → Type 0)
    (blind : IsBlind I) where
  open c use {PublicKey}

  network_send-Preserves :
      (network : ℕ) (ip : Bytes) (port : ℕ) (raw : List ℕ)
      → Preserves I (network_send c w network ip port raw)
  unfolding network_send
  network_send-Preserves network ip port raw n a n' held =
      known-Preserves I _ _ a _ n' refl (blind n _ n.draws held)

  encrypt-Preserves :
      (receiver : PublicKey) (packet : PacketRaw) → Preserves I (encrypt c w receiver packet)
  unfolding encrypt
  encrypt-Preserves receiver packet n a n' held =
      elim (Outcome-cases (
        packet_encrypt c (w.rand n.draws) w.private_key receiver
          (record packet { protocol = 0 }))) [
            | inl e ↦ rw (e, encrypt) (λ h. absurd (cc))
            | inr (inl (text, e)) ↦
                rw (e, encrypt) (known-Preserves I _ _ a _ n' refl (blind n n.wire _ held))
            | inr (inr (raw, e)) ↦
                rw (e, encrypt) (known-Preserves I _ _ a _ n' refl (blind n n.wire _ held))
          ]

  with_raw-Preserves :
      (r : Outcome (List ℕ)) (f : List ℕ → M PublicKey (Option String))
      → ((raw : List ℕ) → Preserves I (f raw))
      → Preserves I (with_raw r f)
  with_raw-Preserves panic f h = λ n a n' held e. absurd (cc)
  with_raw-Preserves (err text) f h = pure-Preserves I (some text)
  with_raw-Preserves (ok raw) f h = h raw

  send_networks-Preserves :
      (ks : List ℕ) (remote : UdpAddr) (raw : List ℕ)
      → Preserves I (send_networks c w ks remote raw)
  unfolding send_networks
  send_networks-Preserves [] remote raw = pure-Preserves I 0
  send_networks-Preserves (k ∷ ks) remote raw = λ n.
      if-Preserves I (skips (n.adapters.networks k) remote) _ _
        (send_networks-Preserves ks remote raw)
        (bind-Preserves I (network_send c w k remote.ip remote.port raw) _
          (network_send-Preserves k remote.ip remote.port raw)
          (λ error.
            bind-Preserves I (send_networks c w ks remote raw) _
              (send_networks-Preserves ks remote raw) (λ count. pure-Preserves I _)))
        n

  send_all_networks-Preserves :
      (receiver : PublicKey) (packet : PacketRaw) (remote : UdpAddr)
      → Preserves I (send_all_networks c w receiver packet remote)
  unfolding send_all_networks
  send_all_networks-Preserves receiver packet remote =
      bind-Preserves I (encrypt c w receiver packet) _ (encrypt-Preserves receiver packet) (λ r.
        with_raw-Preserves r _ (λ raw n.
          bind-Preserves I (send_networks c w _ remote raw) _ (send_networks-Preserves _ remote raw)
            (λ count. pure-Preserves I _) n))

  contact-Preserves :
      (receiver : PublicKey) (addresses : List UdpAddr)
      → Preserves I (contact c w receiver addresses)
  unfolding contact
  contact-Preserves receiver [] = pure-Preserves I tt
  contact-Preserves receiver (x ∷ xs) =
      bind-Preserves I (send_all_networks c w receiver (plain command_announcement) x) _
        (send_all_networks-Preserves receiver (plain command_announcement) x)
        (λ _. contact-Preserves receiver xs)

  contact_one-Preserves :
      (peer : Option ℕ) (receiver : PublicKey) (addresses : List UdpAddr)
      → Preserves I {A = Unit {0}}
          (elim peer [ none ↦ contact c w receiver addresses | some _ ↦ pure tt ])
  contact_one-Preserves none receiver addresses = contact-Preserves receiver addresses
  contact_one-Preserves (some q) receiver addresses = pure-Preserves I tt

  pub contact_root_peers-Preserves :
      (roots : List (RootPeer PublicKey)) → Preserves I (contact_root_peers c w roots)
  unfolding contact_root_peers
  contact_root_peers-Preserves [] = pure-Preserves I tt
  contact_root_peers-Preserves (r ∷ rs) =
      bind-Preserves I
        (elim r.peer [ none ↦ contact c w r.public_key r.addresses | some _ ↦ pure tt ]) _
        (contact_one-Preserves r.peer r.public_key r.addresses)
        (λ _. contact_root_peers-Preserves rs)

  send_broadcasts-Preserves :
      (k : ℕ) (raw : List ℕ) (ips : List Bytes) → Preserves I (send_broadcasts c w k raw ips)
  unfolding send_broadcasts
  send_broadcasts-Preserves k raw [] = pure-Preserves I none
  send_broadcasts-Preserves k raw (ip ∷ ips) =
      bind-Preserves I (network_send c w k ip ipv4_broadcast_port raw) _
        (network_send-Preserves k ip ipv4_broadcast_port raw)
        (λ _. send_broadcasts-Preserves k raw ips)

  announce_to-Preserves :
      (key : Option PublicKey) (f : List ℕ → M PublicKey (Option String))
      → ((raw : List ℕ) → Preserves I (f raw))
      → Preserves I (announce_to c w key f)
  unfolding announce_to
  announce_to-Preserves none f h = λ n a n' held e. absurd (cc)
  announce_to-Preserves (some key) f h =
      bind-Preserves I (encrypt c w key (plain command_announcement)) _
        (encrypt-Preserves key (plain command_announcement)) (λ r. with_raw-Preserves r f h)

  for_networks-Preserves :
      (body : ℕ → M PublicKey (Option String)) (ks : List ℕ)
      → ((k : ℕ) → Preserves I (body k))
      → Preserves I (for_networks c w body ks)
  unfolding for_networks
  for_networks-Preserves body [] h = pure-Preserves I tt
  for_networks-Preserves body (k ∷ ks) h =
      bind-Preserves I (body k) _ (h k) (λ _. for_networks-Preserves body ks h)

  pub send_multicast_broadcast-Preserves : Preserves I (send_multicast_broadcast c w)
  unfolding send_multicast_broadcast broadcast_ipv4_send multicast_ipv6_send
  send_multicast_broadcast-Preserves n =
      bind-Preserves I (for_networks c w (multicast_ipv6_send c w) (items n.adapters.networks6)) _
        (for_networks-Preserves _ _ (λ k.
          announce_to-Preserves w.multicast_key _ (λ raw m. network_send-Preserves k _ _ raw m)))
        (λ _ m.
          for_networks-Preserves (broadcast_ipv4_send c w) (items m.adapters.networks4)
            (λ k.
              announce_to-Preserves w.broadcast_key _
                (λ raw m'. send_broadcasts-Preserves k raw _ m'))
            m)
        n
