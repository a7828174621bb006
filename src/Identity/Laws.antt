-- ===== src/Identity/Laws.antt =====
-- Peer ID.go: the identity of a node over restarts, and the hard-coded keys.
use peernet_core.Prelude.{
  ℕ, ◌≤◌, ◌≡◌, refl, sym, arith, ap, ◌∙◌, [], ◌∷◌, length, Option, none, some, String,
}
use peernet_core.Ip.{Bytes, AreBytes}
use peernet_core.Crypto.{Crypto}
use peernet_core.Text.{Text}
use peernet_core.Text.Hex.{encode_to_string, decode_string}
use peernet_core.Text.Hex.Laws.{decode-encode, length-encode}
use peernet_core.Config.{Config, Yaml, Settings, load_config, save_config}
use peernet_core.Config.Laws.{load-save}
use peernet_core.Identity.{
  key_pair, ipv4_broadcast_private_key_h, ipv6_multicast_private_key_h, init_broadcast_ipv4,
  init_multicast_ipv6, key_from_hex, load_identity, store_identity, secp256k1_new_private_key,
  identity_from, init_peer_id,
}

module _ (c : Crypto) where
  open c use {
    PrivateKey, PublicKey, pub_key, priv_key_from_bytes, serialize_compressed,
    length-serialize_compressed,
  }

  -- Both hard-coded keys are hex texts of 32 bytes, so that broadcast and multicast always have
  -- their keys.
  pub init_discovery_keys :
      ((bytes : Bytes) × (length bytes ≡ 32)
        × (encode_to_string bytes ≡ ipv4_broadcast_private_key_h)
        × (init_broadcast_ipv4 c ≡ some (key_pair c (priv_key_from_bytes bytes))))
      × ((bytes : Bytes) × (length bytes ≡ 32)
          × (encode_to_string bytes ≡ ipv6_multicast_private_key_h)
          × (init_multicast_ipv6 c ≡ some (key_pair c (priv_key_from_bytes bytes))))
  unfolding init_broadcast_ipv4 init_multicast_ipv6 key_from_hex decode_string encode_to_string
  init_discovery_keys = ((_, refl, refl, refl), (_, refl, refl, refl))

  module _ (yaml : Yaml) (default_config : Bytes) where
    identity_from-hex :
        (text : Text) (bytes : Bytes) (new : Option PrivateKey) (s : Settings)
        → 1 ≤ length text
        → decode_string text ≡ some bytes
        → identity_from c yaml default_config text new s
          ≡ some (key_pair c (priv_key_from_bytes bytes), s)
    unfolding identity_from load_identity
    identity_from-hex [] bytes new s filled e = absurd (omega (arith, filled))
    identity_from-hex (x ∷ text) bytes new s filled e = ap (λ o. load_identity c o s) e

    -- The configuration as `initPeerID` saves it with a new key.
    abbrev pub with_new_key : PrivateKey → Config → Config
    with_new_key k config = record config {
      private_key = encode_to_string (serialize_compressed (pub_key k));
    }

    -- A first start, without a key in the configuration, has the new key pair. Any later start that
    -- loads the file that the first one stored has another: the key pair whose private key is made
    -- of the bytes of the first one's PUBLIC key; it stores nothing, so that all later starts agree.
    -- This is where the file could be written, and the YAML library reads back what it wrote.
    pub restart_lem :
        (s fresh : Settings) (k : PrivateKey) (new : Option PrivateKey) (bytes : Bytes)
        → s.config.private_key ≡ []
        → AreBytes (serialize_compressed (pub_key k))
        → yaml.marshal (with_new_key k s.config) ≡ some bytes
        → 1 ≤ length bytes
        → s.write_error s.config_file ≡ none
        → yaml.unmarshal bytes fresh.config ≡ (none, with_new_key k s.config)
        → (s₁ : Settings) × (init_peer_id c yaml default_config (some k) s
            ≡ some (key_pair c k, s₁))
          × (fresh.files ≡ s₁.files
              → let (_, s₂) = load_config yaml default_config s.config_file fresh in
                init_peer_id c yaml default_config new s₂
                ≡ some (key_pair c (priv_key_from_bytes (serialize_compressed (pub_key k))), s₂))
    unfolding init_peer_id identity_from store_identity secp256k1_new_private_key
    restart_lem s fresh k new bytes unset are_bytes marshalled filled written back =
        let serialized = serialize_compressed (pub_key k) in
        let s' = record s { config = with_new_key k s.config } in
        let s₁ = save_config yaml default_config s' in
        (
          s₁,
          ap (λ text. identity_from c yaml default_config text (some k) s) unset,
          λ same.
              let loaded =
                load-save yaml default_config s' fresh bytes marshalled filled written same back in
              let s₂ = record fresh { config = s'.config; config_file = s.config_file } in
              ap
                (λ (r : (ℕ × Option String) × Settings). init_peer_id c yaml default_config new r.1)
                loaded
              ∙ identity_from-hex (encode_to_string serialized) serialized new s₂
                  (omega (arith, length-encode serialized, length-serialize_compressed (pub_key k)))
                  (decode-encode serialized are_bytes)
              ∙ ap
                  (λ (r : (ℕ × Option String) × Settings).
                    some (key_pair c (priv_key_from_bytes serialized), r.1))
                  (sym loaded),
        )
