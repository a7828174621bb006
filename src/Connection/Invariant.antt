-- ===== src/Connection/Invariant.antt =====
-- Connection.go: what holds of a peer's connections between two calls.
use mathlib.Core.List.{Nodup}
use peernet_core.Prelude.{ℕ, ◌≡◌, true, List, ◌++◌, map, Option, none, some, if◌then◌else◌}
use peernet_core.Ip.{Bytes}
use peernet_core.Slice.{items, IsSlice}
use peernet_core.Slice.Pointers.{has}
use peernet_core.Connection.{Store, PeerInfo, Status, active, inactive, redundant, is_latest}
use peernet_core.Connection.Lists.{endpoint}

-- All connections of a peer, the active ones first.
abbrev pub connections : {K : Type 0} → PeerInfo K → List ℕ
connections p = items p.connection_active ++ items p.connection_inactive

-- The status of an active connection.
abbrev pub expected : Option ℕ → ℕ → Status
expected latest c = if is_latest latest c then active else redundant

abbrev pub IsListed : Option ℕ → List ℕ → Type 0
IsListed none xs = Unit {0}
IsListed (some c) xs = has c xs ≡ true

-- Both slices are sound; no two connections have the same remote and local IP; the latest
-- connection is in the active list and is the only one there that is not redundant; all
-- connections of the inactive list are inactive.
pub record IsConsistent (local_ip : ℕ → Bytes) (h : Store) {K : Type 0} (p : PeerInfo K)
    : Type 0 where
  pub active_slice : IsSlice p.connection_active
  pub inactive_slice : IsSlice p.connection_inactive
  pub distinct : Nodup (map (λ c. endpoint local_ip (h c)) (connections p))
  pub listed : IsListed p.connection_latest (items p.connection_active)
  pub active_status :
      (c : ℕ)
      → has c (items p.connection_active) ≡ true
      → (h c).status ≡ expected p.connection_latest c
  pub inactive_status :
      (c : ℕ) → has c (items p.connection_inactive) ≡ true → (h c).status ≡ inactive
