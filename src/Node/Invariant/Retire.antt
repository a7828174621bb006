-- ===== src/Node/Invariant/Retire.antt =====
-- Commands.go, `autoPingAll`: a connection that is silent for too long.
use peernet_core.Prelude.{ℕ, ◌≡◌, true}
use peernet_core.Crypto.{Crypto}
use peernet_core.Node.{Node, World}
use peernet_core.Node.Commands.{is_older, connection_invalidate, threshold_factor}
use peernet_core.Node.Invariant.Looping.{Looping}

module _ (c : Crypto) (w : World c) (owner : ℕ → ℕ) (now q k : ℕ) where
  open c use {PublicKey}

  abbrev IsSilent : Node PublicKey → Type 0
  IsSilent n =
      is_older (n.connections k).last_packet_in connection_invalidate
        (threshold_factor (n.connections k).status) now
      ≡ true
