-- ===== src/Node/Sending/Everywhere.antt =====
-- Connection.go, `sendAllNetworks`: over which networks a packet goes.
use peernet_core.Prelude.{ℕ, ◌+◌, List, [], ◌∷◌, ◌++◌, Option, none, some, String, if◌then◌else◌}
use peernet_core.Ip.{is_ipv6}
use peernet_core.Crypto.{Crypto}
use peernet_core.Network.{Adapters}
use peernet_core.Slice.{items}
use peernet_core.Connection.{UdpAddr}
use peernet_core.Node.{Node, World, Datagram, M, pure}
use peernet_core.Node.Sending.{skips, to16_or_nil}

-- The networks of a list that are not skipped for the address.
abbrev pub usable : Adapters → UdpAddr → List ℕ → List ℕ
usable a remote [] = []
usable a remote (k ∷ ks) =
    let rest = usable a remote ks in if skips (a.networks k) remote then rest else k ∷ rest

abbrev pub over : UdpAddr → List ℕ → ℕ → Datagram
over remote raw k = record { network = k; ip = remote.ip; port = remote.port; raw = raw }

-- The networks of the address's kind.
abbrev pub networks_for : Adapters → UdpAddr → List ℕ
networks_for a remote = items (if is_ipv6 (to16_or_nil remote.ip) then a.networks6 else a.networks4)

module _ (c : Crypto) (w : World c) where
  open c use {PublicKey}

  -- How many of the writes of these datagrams, one after the other, succeed.
  abbrev pub successes : List Datagram → List Datagram → ℕ
  successes wire [] = 0
  successes wire (d ∷ ds) =
      let rest = successes (wire ++ d ∷ []) ds in
      elim (w.write_to wire d) [ none ↦ rest + 1 | some _ ↦ rest ]

  -- A write is counted if it returns no error.
  abbrev add : Option String → ℕ → M PublicKey ℕ
  add error count = pure (elim error as (λ _. ℕ) [ none ↦ count + 1 | some _ ↦ count ])
