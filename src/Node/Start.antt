-- ===== src/Node/Start.antt =====
-- Peernet.go: `Init`; and `ExportPrivateKey` of Peer ID.go.
pub mod Laws
use peernet_core.Prelude.{ℕ, Bool, List, [], ◌∷◌, Option, none, some, String, is_some}
use peernet_core.Ip.{Bytes}
use peernet_core.Crypto.{Crypto, Rand}
use peernet_core.Slice.{nil_slice}
use peernet_core.Connection.{Connection, PeerInfo, removed}
use peernet_core.Config.{Config, Yaml, Settings}
use peernet_core.Identity.{KeyPair, init_peer_id, init_broadcast_ipv4, init_multicast_ipv6}
use peernet_core.Network.{Adapters, System}
use peernet_core.Network.Init.{initial_adapters, init_network, worker_count}
use peernet_core.Node.{Node, World, Datagram}
use peernet_core.Node.Bootstrap.{RootPeer}
use peernet_core.Node.Bootstrap.Seeds.{init_seed_list}

-- A pointer that is not in use points to nothing; some connection and peer stand there.
abbrev no_connection : Connection
no_connection = record {
  network = 0;
  address = record { ip = []; port = 0 };
  last_packet_in = 0;
  last_packet_out = 0;
  last_ping_out = 0;
  expires = 0;
  status = removed;
}

abbrev no_peer : {K : Type 0} → K → PeerInfo K
no_peer k = record {
  public_key = k;
  connection_active = nil_slice;
  connection_inactive = nil_slice;
  connection_latest = none;
  stats_packet_sent = 0;
  stats_packet_received = 0;
}

-- The package's variables at the start, with an empty peer list.
abbrev pub initial_node : {K : Type 0} → K → Adapters → Node K
initial_node k adapters = record {
  connections = λ d. no_connection;
  next_connection = 0;
  peers = λ q. no_peer k;
  next_peer = 0;
  peer_list = [];
  adapters = adapters;
  wire = [];
  draws = 0;
}

module _ (c : Crypto) where
  open c use {PrivateKey, PublicKey}

  -- What `Init` leaves: the key pairs, the node, the root peers, the configuration, and how many
  -- workers were started.
  pub record Started : Type 0 where
    pub world : World c
    pub node : Node PublicKey
    pub roots : List (Bytes × RootPeer PublicKey)
    pub settings : Settings
    pub workers : ℕ

  -- `ExportPrivateKey`
  unfoldable pub export_private_key : World c → PrivateKey × PublicKey
  export_private_key w = (w.private_key, w.public_key)

  abbrev pub public_of : Option (KeyPair c) → Option PublicKey
  public_of none = none
  public_of (some (private, public)) = some public

  -- The random numbers, the sockets and the operating system are what the node runs against.
  module _ (yaml : Yaml) (default_config : Bytes) (os : System) (rand : ℕ → Rand)
      (write_to : List Datagram → Datagram → Option String) where
    -- The system, once the keys for the discovery are initialized.
    abbrev pub system : System
    system = record os {
      broadcast_keys = is_some (init_broadcast_ipv4 c);
      multicast_keys = is_some (init_multicast_ipv6 c);
    }

    abbrev pub world_of : KeyPair c → World c
    world_of (private, public) = record {
      private_key = private;
      public_key = public;
      broadcast_key = public_of (init_broadcast_ipv4 c);
      multicast_key = public_of (init_multicast_ipv6 c);
      rand = rand;
      write_to = write_to;
    }

    -- From the networks on; `none` is a panic.
    unfoldable pub with_network : KeyPair c → Settings → Option Adapters → Option Started
    with_network keys s none = none
    with_network keys s (some a) = some (record {
      world = world_of keys;
      node = initial_node keys.1 a;
      roots = init_seed_list c s.config.seed_list;
      settings = s;
      workers = worker_count s.config.listen_workers;
    })

    -- From the identity on; `none` is an exit.
    unfoldable pub with_identity : Option (KeyPair c × Settings) → Option Started
    with_identity none = none
    with_identity (some (keys, s)) =
        with_network keys s (init_network system s.config.listen initial_adapters)

    -- `Init`; `new` is the key that `btcec.NewPrivateKey` makes, if it is asked.
    unfoldable pub init : Option PrivateKey → Settings → Option Started
    init new s = with_identity (init_peer_id c yaml default_config new s)
