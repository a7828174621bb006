-- ===== src/Node/Start/Laws.antt =====
-- Peernet.go: what `Init` leaves.
use peernet_core.Prelude.{arith, ℕ, ◌≡◌, refl, ap, ◌∙◌, List, [], Option, none, some, String}
use peernet_core.Ip.{Bytes}
use peernet_core.Crypto.{Crypto, Rand}
use peernet_core.Config.{Yaml, Settings}
use peernet_core.Identity.{KeyPair, init_peer_id}
use peernet_core.Identity.Laws.{init_discovery_keys}
use peernet_core.Network.{System, Adapters}
use peernet_core.Network.Discovery.Safe.{SystemMasked}
use peernet_core.Network.Init.Laws.{init_network-StaysFiled}
use peernet_core.Network.Invariant.{IsFiled}
use peernet_core.Node.{Datagram}
use peernet_core.Node.Invariant.{IsSound}
use peernet_core.Node.Start.{
  Started, initial_node, public_of, system, with_network, with_identity, init, export_private_key,
}

pub initial-IsSound :
    {K : Type 0} (owner : ℕ → ℕ) (k : K) (a : Adapters) → IsSound owner (initial_node k a)
initial-IsSound owner k a = record {
  consistent = λ q lt. absurd (omega (arith, lt));
  owned = λ q d lt m. absurd (omega (arith, lt));
  known = λ q h. absurd (cc);
}

module _ (c : Crypto) (yaml : Yaml) (default_config : Bytes) (os : System) (rand : ℕ → Rand)
    (write_to : List Datagram → Datagram → Option String) where
  open c use {PrivateKey, PublicKey}

  -- A node that is ready: it has the key pair, the keys for the discovery, an empty peer list, and
  -- networks that are sorted by kind; the invariant of nodes holds.
  pub record Ready (keys : KeyPair c) (st : Started c) : Type 0 where
    pub exported : export_private_key c st.world ≡ keys
    pub broadcast : (k : PublicKey) × (st.world.broadcast_key ≡ some k)
    pub multicast : (k : PublicKey) × (st.world.multicast_key ≡ some k)
    pub nobody : st.node.peer_list ≡ []
    pub filed : IsFiled st.node.adapters
    pub sound : (owner : ℕ → ℕ) → IsSound owner st.node

  pub init-Ready :
      (new : Option PrivateKey) (s : Settings)
      → SystemMasked os
      → (init_peer_id c yaml default_config new s ≡ none
          → init c yaml default_config os rand write_to new s ≡ none)
        × ((keys : KeyPair c) (s₁ : Settings)
            → init_peer_id c yaml default_config new s ≡ some (keys, s₁)
            → (st : Started c) × (init c yaml default_config os rand write_to new s ≡ some st)
              × Ready keys st)
  unfolding init with_identity with_network export_private_key
  init-Ready new s masked = (
    λ e. ap (with_identity c yaml default_config os rand write_to) e,
    λ keys s₁ e.
        let os' = system c yaml default_config os rand write_to in
        let (a, started, filed) = init_network-StaysFiled os' masked s₁.config.listen in
        let ((b₄, _, _, e₄), (b₆, _, _, e₆)) = init_discovery_keys c in
        (
          _,
          ap (with_identity c yaml default_config os rand write_to) e
              ∙ ap (with_network c yaml default_config os rand write_to keys s₁) started,
          record {
            exported = refl;
            broadcast = (_, ap (public_of c) e₄);
            multicast = (_, ap (public_of c) e₆);
            nobody = refl;
            filed = filed;
            sound = λ owner. initial-IsSound owner keys.1 a;
          },
        ),
  )
