-- ===== src/Connection.antt =====
-- Connection.go (the connection lists) and the `PeerInfo` of Peer ID.go. Connections live in a
-- store and are known by pointer, as in the source; a peer's two lists are slices of pointers.
-- Times are nanoseconds since Go's zero time.
pub mod Lists
pub mod Latest
pub mod Invariant
pub mod Moves
pub mod Removal
pub mod Stale
pub mod Register
pub mod Arrival
pub mod Frame
mod Tests
use peernet_core.Prelude.{
  ℕ, zero, suc, ◌+◌, ◌*◌, Bool, true, false, ◌&&◌, List, [], ◌∷◌, ◌++◌, Option, none, some, ◌==◌,
  if◌then◌else◌,
}
use peernet_core.Ip.{Bytes, ip_equal}
use peernet_core.Slice.{Slice, items, append, remove_at}
use peernet_core.Slice.Pointers.{find_pointer}

pub data Status : Type 0 where
  active inactive removed redundant : Status

-- `net.UDPAddr`
pub record UdpAddr : Type 0 where
  pub ip : Bytes
  pub port : ℕ

pub record Connection : Type 0 where
  pub network : ℕ
  pub address : UdpAddr
  pub last_packet_in : ℕ
  pub last_packet_out : ℕ
  pub last_ping_out : ℕ
  pub expires : ℕ
  pub status : Status

pub record PeerInfo (K : Type 0) : Type 0 where
  pub public_key : K
  pub connection_active : Slice
  pub connection_inactive : Slice
  pub connection_latest : Option ℕ
  pub stats_packet_sent : ℕ
  pub stats_packet_received : ℕ

-- The connections by pointer.
abbrev pub Store : Type 0
Store = ℕ → Connection

abbrev pub update : Store → ℕ → Connection → Store
update h c v d = if d == c then v else h d

-- `time.Second`
abbrev pub second : ℕ
second = 1000000000

abbrev pub connection_remove : ℕ
connection_remove = 2 * 60

abbrev pub is_latest : Option ℕ → ℕ → Bool
is_latest none c = false
is_latest (some l) c = l == c

-- All others in the list become redundant.
pub mark_redundant : Store → ℕ → List ℕ → Store
mark_redundant h latest [] = h
mark_redundant h latest (c ∷ cs) =
    mark_redundant (if c == latest then h else update h c (record (h c) { status = redundant }))
      latest cs

module _ {K : Type 0} where
  unfoldable pub get_connections : PeerInfo K → Bool → Slice
  get_connections p true = p.connection_active
  get_connections p false = p.connection_inactive

  pub set_connection_latest : Store → PeerInfo K → ℕ → Store × PeerInfo K
  set_connection_latest h p latest = if is_latest p.connection_latest latest then (h, p) else (
    mark_redundant h latest (items p.connection_active),
    record p { connection_latest = some latest },
  )

  pub invalidate_active_connection : Store → PeerInfo K → ℕ → ℕ → Store × PeerInfo K
  invalidate_active_connection h p input now =
      let h' =
        update h input
          (record (h input) { status = inactive; expires = now + connection_remove * second }) in
      let p' = record p {
        connection_latest =
            if is_latest p.connection_latest input then none else p.connection_latest;
      } in
      elim (find_pointer input (items p.connection_active)) [
        | none ↦ (h', p')
        | some n ↦ (
          h',
          record p' {
            connection_inactive = append p.connection_inactive input;
            connection_active = remove_at p.connection_active n;
          },
        )
      ]

  pub remove_inactive_connection : Store → PeerInfo K → ℕ → Store × PeerInfo K
  remove_inactive_connection h p input =
      let h' = update h input (record (h input) { status = removed }) in
      elim (find_pointer input (items p.connection_inactive)) [
        | none ↦ (h', p)
        | some n ↦ (h', record p { connection_inactive = remove_at p.connection_inactive n })
      ]

  -- A connection that the peer did not have.
  pub add_new : Store → PeerInfo K → ℕ → Store × PeerInfo K × ℕ
  add_new h p incoming =
      let (h', p') =
        set_connection_latest h
          (record p { connection_active = append p.connection_active incoming }) incoming in
      (h', p', incoming)

-- The port is taken over and the connection is active.
abbrev refreshed : Connection → Connection → Connection
refreshed c incoming = record c {
  address = record {
    ip = c.address.ip;
    port =
        if c.address.port == incoming.address.port then c.address.port else incoming.address.port;
  };
  status = active;
}

-- The local IP of each network, by pointer.
module _ (local_ip : ℕ → Bytes) where
  -- `Connection.Equal`: the port is not compared.
  pub connection_equal : Connection → Connection → Bool
  connection_equal c other =
      ip_equal c.address.ip other.address.ip
      && ip_equal (local_ip c.network) (local_ip other.network)

  -- `for n, connection := range list { if connection.Equal(incoming) {…} }`
  pub find_equal : Store → Connection → List ℕ → Option (ℕ × ℕ)
  find_equal h incoming [] = none
  find_equal h incoming (c ∷ cs) =
      let rest = find_equal h incoming cs in
      if connection_equal (h c) incoming
      then some (0, c)
      else elim rest [ none ↦ none | some (n, d) ↦ some (suc n, d) ]

  module _ {K : Type 0} where
    -- A connection that is already active.
    pub renew : Store → PeerInfo K → ℕ → Connection → Store × PeerInfo K × ℕ
    renew h p c incoming =
        let (h', p') = set_connection_latest (update h c (refreshed (h c) incoming)) p c in
        (h', p', c)

    -- An inactive connection is elevated.
    pub elevate : Store → PeerInfo K → ℕ → ℕ → Connection → Store × PeerInfo K × ℕ
    elevate h p n c incoming =
        let p₁ = record p { connection_active = append p.connection_active c } in
        let (h', p') = set_connection_latest (update h c (refreshed (h c) incoming)) p₁ c in
        (h', record p' { connection_inactive = remove_at p'.connection_inactive n }, c)

    pub register_connection : Store → PeerInfo K → ℕ → Store × PeerInfo K × ℕ
    register_connection h p incoming =
        elim (find_equal h (h incoming) (items p.connection_active)) [
          | some (n, c) ↦ renew h p c (h incoming)
          | none ↦ elim (find_equal h (h incoming) (items p.connection_inactive)) [
            | some (n, c) ↦ elevate h p n c (h incoming)
            | none ↦ add_new h p incoming
          ]
        ]
