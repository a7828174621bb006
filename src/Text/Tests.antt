-- ===== src/Text/Tests.antt =====
-- Texts of addresses: runs, and the theorems on them.
use peernet_core.Prelude.{◌≡◌, ◌≢◌, ok, panic}
use peernet_core.Connection.{UdpAddr}
use peernet_core.Text.{codes}
use peernet_core.Text.Address.{parse_address}
use peernet_core.Text.Address.Laws.{IsRemote, parse_address-IsRemote}

parse_address-IsRemote_example :
    (parse_address (codes "[fe80::1]:112") ≢ panic)
    × ((addr : UdpAddr) → parse_address (codes "[fe80::1]:112") ≡ ok addr → IsRemote addr)
parse_address-IsRemote_example = parse_address-IsRemote (codes "[fe80::1]:112")
