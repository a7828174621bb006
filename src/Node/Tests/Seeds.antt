-- ===== src/Node/Tests/Seeds.antt =====
-- A seed list: a seed whose address cannot be parsed, and one that can be used.
use peernet_core.Prelude.{List, [], ◌∷◌}
use peernet_core.Text.{codes}
use peernet_core.Config.{PeerSeed}

abbrev seeds : List PeerSeed
seeds =
    record { public_key = codes "05"; address = codes "10.0.0.1:70000" ∷ [] }
    ∷ record { public_key = codes "02"; address = codes "10.0.0.2:112" ∷ [] }
    ∷ []
