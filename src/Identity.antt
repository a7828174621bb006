-- ===== src/Identity.antt =====
-- Peer ID.go, Network IPv4 Broadcast.go and Network IPv6 Multicast.go: the key pairs of a node.
pub mod Laws
pub mod Tests
use peernet_core.Prelude.{ℕ, List, [], ◌∷◌, Option, none, some, String}
use peernet_core.Ip.{Bytes}
use peernet_core.Crypto.{Crypto}
use peernet_core.Text.{Text, codes}
use peernet_core.Text.Hex.{encode_to_string, decode_string}
use peernet_core.Config.{Config, Yaml, Settings, save_config}

-- `ipv4BroadcastPrivateKeyH` and `ipv6MulticastPrivateKeyH`
abbrev pub ipv4_broadcast_private_key_h : Text
ipv4_broadcast_private_key_h =
    codes "5e27ecc8e54a24e71dca9ba84a9bf465400e27b8c46a977d34962d3d88558c8e"

abbrev pub ipv6_multicast_private_key_h : Text
ipv6_multicast_private_key_h =
    codes "016ad30bfb369926523bf18d136298b6c31d0817e9fb6c21feed89ae22cad788"

module _ (c : Crypto) where
  open c use {PrivateKey, PublicKey, pub_key, priv_key_from_bytes, serialize_compressed}

  -- `peerPrivateKey` and `peerPublicKey`.
  abbrev pub KeyPair : Type 0
  KeyPair = PrivateKey × PublicKey

  abbrev pub key_pair : PrivateKey → KeyPair
  key_pair k = (k, pub_key k)

  -- A hard-coded key: nil if its text is no hex.
  unfoldable pub key_from_hex : Option Bytes → Option KeyPair
  key_from_hex none = none
  key_from_hex (some bytes) = some (key_pair (priv_key_from_bytes bytes))

  -- `initBroadcastIPv4` and `initMulticastIPv6`
  unfoldable pub init_broadcast_ipv4 : Option KeyPair
  init_broadcast_ipv4 = key_from_hex (decode_string ipv4_broadcast_private_key_h)

  unfoldable pub init_multicast_ipv6 : Option KeyPair
  init_multicast_ipv6 = key_from_hex (decode_string ipv6_multicast_private_key_h)

  -- `Secp256k1NewPrivateKey`; the argument is what `btcec.NewPrivateKey` returns.
  unfoldable pub secp256k1_new_private_key : Option PrivateKey → Option KeyPair
  secp256k1_new_private_key none = none
  secp256k1_new_private_key (some k) = some (key_pair k)

  -- The key of the configuration, if it is hex; otherwise the process exits, which is `none`.
  unfoldable pub load_identity : Option Bytes → Settings → Option (KeyPair × Settings)
  load_identity none s = none
  load_identity (some bytes) s = some (key_pair (priv_key_from_bytes bytes), s)

  module _ (yaml : Yaml) (default_config : Bytes) where
    -- The new key pair is saved in the configuration.
    unfoldable pub store_identity : Option KeyPair → Settings → Option (KeyPair × Settings)
    store_identity none s = none
    store_identity (some (private, public)) s = some (
      (private, public),
      save_config yaml default_config (record s {
        config = record s.config { private_key = encode_to_string (serialize_compressed public) };
      }),
    )

    -- `initPeerID`, by the configured key; `new` is what `btcec.NewPrivateKey` returns.
    unfoldable pub identity_from : Text → Option PrivateKey → Settings → Option (KeyPair × Settings)
    identity_from [] new s = store_identity (secp256k1_new_private_key new) s
    identity_from (x ∷ text) new s = load_identity (decode_string (x ∷ text)) s

    unfoldable pub init_peer_id : Option PrivateKey → Settings → Option (KeyPair × Settings)
    init_peer_id new s = identity_from s.config.private_key new s
