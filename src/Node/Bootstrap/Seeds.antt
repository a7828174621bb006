-- ===== src/Node/Bootstrap/Seeds.antt =====
-- Bootstrap.go: `initSeedList`.
use peernet_core.Prelude.{
  ◌≡◌, List, [], ◌∷◌, Option, none, some, Outcome, ok, err, panic, if◌then◌else◌,
}
use peernet_core.Ip.{Bytes, bytes_equal}
use peernet_core.Crypto.{Crypto}
use peernet_core.Connection.{UdpAddr}
use peernet_core.Text.{Text}
use peernet_core.Text.Hex.{decode_string}
use peernet_core.Text.Address.{parse_address}
use peernet_core.Text.Address.Laws.{IsRemote}
use peernet_core.Config.{PeerSeed}
use peernet_core.Node.Peerlist.{map_set, public_key2_compressed}
use peernet_core.Node.Bootstrap.{RootPeer}

-- The addresses of a seed: one that cannot be parsed drops the seed.
abbrev pub cons_address : Outcome UdpAddr → Option (List UdpAddr) → Option (List UdpAddr)
cons_address (ok address) (some addresses) = some (address ∷ addresses)
cons_address (ok address) none = none
cons_address (err _) rest = none
cons_address panic rest = none

unfoldable pub parse_addresses : List Text → Option (List UdpAddr)
parse_addresses [] = some []
parse_addresses (x ∷ xs) = cons_address (parse_address x) (parse_addresses xs)

module _ (c : Crypto) where
  open c use {PublicKey, parse_pub_key}

  -- The public key of a seed.
  unfoldable pub parse_key : Option Bytes → Option PublicKey
  parse_key none = none
  parse_key (some bytes) = parse_pub_key bytes

  -- One round of the loop: the root peer, if the seed's key and all its addresses can be parsed.
  abbrev pub root_from : Option PublicKey → Option (List UdpAddr) → Option (RootPeer PublicKey)
  root_from none addresses = none
  root_from (some key) none = none
  root_from (some key) (some addresses) =
      some (record { peer = none; public_key = key; addresses = addresses })

  unfoldable pub seed_peer : PeerSeed → Option (RootPeer PublicKey)
  seed_peer seed =
      root_from (parse_key (decode_string seed.public_key)) (parse_addresses seed.address)

  abbrev root_key : RootPeer PublicKey → Bytes
  root_key r = public_key2_compressed c r.public_key

  -- The loop over the seeds.
  unfoldable pub add_seeds :
      List PeerSeed → List (Bytes × RootPeer PublicKey) → List (Bytes × RootPeer PublicKey)
  add_seeds [] roots = roots
  add_seeds (seed ∷ seeds) roots =
      add_seeds seeds
        (elim (seed_peer seed) [ none ↦ roots | some r ↦ map_set (root_key r) r roots ])

  -- `initSeedList`: the map `rootPeers`.
  unfoldable pub init_seed_list : List PeerSeed → List (Bytes × RootPeer PublicKey)
  init_seed_list seeds = add_seeds seeds []

  -- The reference: the last seed of the list that can be parsed and has the key.
  abbrev pub with_key : Bytes → Option (RootPeer PublicKey) → Option (RootPeer PublicKey)
  with_key k none = none
  with_key k (some r) = if bytes_equal (root_key r) k then some r else none

  abbrev pub or_earlier :
      Option (RootPeer PublicKey) → Option (RootPeer PublicKey) → Option (RootPeer PublicKey)
  or_earlier none r = r
  or_earlier (some later) r = some later

  pub last_seed : Bytes → List PeerSeed → Option (RootPeer PublicKey)
  last_seed k [] = none
  last_seed k (seed ∷ seeds) = or_earlier (last_seed k seeds) (with_key k (seed_peer seed))

  -- Addresses that datagrams can go to.
  abbrev pub AreRemote : List UdpAddr → Type 0
  AreRemote [] = Unit {0}
  AreRemote (x ∷ xs) = IsRemote x × AreRemote xs

  abbrev AreParsed : Option (List UdpAddr) → Type 0
  AreParsed none = Unit {0}
  AreParsed (some addresses) = AreRemote addresses

  -- A root peer has the key that it is listed under, and addresses that datagrams can go to.
  abbrev pub IsRoot : Bytes → Option (RootPeer PublicKey) → Type 0
  IsRoot k none = Unit {0}
  IsRoot k (some r) = (root_key r ≡ k) × AreRemote r.addresses
