-- ===== src/Connection/Tests.antt =====
-- A peer with an active and an inactive connection: runs, and the theorems of Connection at it.
use mathlib.Core.List.{Nodup, Nodup-cons, Nodup-nil, not-mem-nil, mem-cons}
use mathlib.Core.Logic.Or
use mathlib.Core.HLevel.{⊥_prop}
use peernet_core.Prelude.{ℕ, ◌≡◌, ◌≢◌, refl, ap, [], ◌∷◌, map, some, arith, ◌==◌, if◌then◌else◌}
use peernet_core.Ip.{Bytes, ip_equal, bytes_equal}
use peernet_core.Ip.Canonical.{canonical}
use peernet_core.Slice.{items, append, remove_at}
use peernet_core.Connection.{
  Store, Connection, PeerInfo, Status, active, inactive, redundant, register_connection,
  invalidate_active_connection, remove_inactive_connection, elevate, find_equal, connection_equal,
  set_connection_latest, mark_redundant,
}
use peernet_core.Connection.Lists.{endpoint}
use peernet_core.Connection.Invariant.{IsConsistent}
use peernet_core.Connection.Register.{Registered}
use peernet_core.Connection.Arrival.{register-Registered}
use peernet_core.Connection.Moves.{Invalidated, invalidate-Invalidated}
use peernet_core.Connection.Removal.{Removed, remove-Removed}

abbrev local_ip : ℕ → Bytes
local_ip n = 10 ∷ 0 ∷ 0 ∷ 1 ∷ []

abbrev remote : ℕ → ℕ → Status → Connection
remote host port status = record {
  network = 0;
  address = record { ip = 10 ∷ 0 ∷ 0 ∷ host ∷ []; port = port };
  last_packet_in = 0;
  last_packet_out = 0;
  last_ping_out = 0;
  expires = 0;
  status = status;
}

-- Connection 0 is active and the latest, connection 1 inactive; 2 comes in for the host of 1.
abbrev store : Store
store c =
    if c == 0
    then remote 2 112 active
    else if c == 1
    then remote 3 112 inactive
    else remote 3 99 active

abbrev peer : PeerInfo ℕ
peer = record {
  public_key = 7;
  connection_active = record { array = 0 ∷ []; len = 1 };
  connection_inactive = record { array = 1 ∷ []; len = 1 };
  connection_latest = some 0;
  stats_packet_sent = 0;
  stats_packet_received = 0;
}

ends : endpoint local_ip (store 0) ≢ endpoint local_ip (store 1)
unfolding canonical
ends e = ground (arith, ap (λ (p : Bytes × Bytes). p.0) e)

distinct : Nodup (map (λ c. endpoint local_ip (store c)) (0 ∷ 1 ∷ []))
distinct =
    Nodup-cons.1
      ((λ m. Or.elim ⊥_prop (mem-cons.0 m) ends not-mem-nil), Nodup-cons.1 (not-mem-nil, Nodup-nil))

peer-IsConsistent : IsConsistent local_ip store peer
peer-IsConsistent = record {
  active_slice = omega arith;
  inactive_slice = omega arith;
  distinct = distinct;
  listed = refl;
  active_status = λ c m. ground arith;
  inactive_status = λ c m. ground arith;
}

register-Registered_example :
    Registered local_ip store peer peer-IsConsistent 2 (register_connection local_ip store peer 2)
register-Registered_example = register-Registered local_ip store peer peer-IsConsistent 2 refl

-- Connection 1 comes back at the port of the packet, and connection 0 is redundant.
elevated :
    let (h, p, c) = register_connection local_ip store peer 2 in
    (c ≡ 1)
    × ((h 1).address.port ≡ 99)
    × ((h 0).status ≡ redundant)
    × (items p.connection_active ≡ 0 ∷ 1 ∷ [])
    × (items p.connection_inactive ≡ [])
unfolding register_connection elevate find_equal connection_equal set_connection_latest
    mark_redundant append remove_at ip_equal bytes_equal
elevated = (refl, refl, refl, refl, refl)

invalidate-Invalidated_example :
    Invalidated local_ip store peer peer-IsConsistent 0 5
      (invalidate_active_connection store peer 0 5)
invalidate-Invalidated_example = invalidate-Invalidated local_ip store peer peer-IsConsistent 0 5

remove-Removed_example : Removed local_ip store peer 1 (remove_inactive_connection store peer 1)
remove-Removed_example = remove-Removed local_ip store peer peer-IsConsistent 1 refl
