-- ===== src/Node/Tests/Peerlist.antt =====
-- A peer list to which a key is added, and from which another is taken.
use peernet_core.Prelude.{
  ℕ, ◌≡◌, subst, true, List, [], ◌∷◌, none, some, if◌then◌else◌, zeros, copy_at, arith, Bool-cases,
  inl, inr,
}
use peernet_core.Ip.{bytes_equal}
use peernet_core.Ip.Canonical.{bytes_equal-eq}
use peernet_core.Fixtures.{toy_crypto}
use peernet_core.Node.Peerlist.{map_get, public_key2_compressed}
use peernet_core.Node.Peerlist.Refinement.{
  Call, add, forget, Directory, Represents, run, run_specified, run-Represents,
}
use peernet_core.Node.Tests.{node}

abbrev calls : List (Call ℕ)
calls = add 7 5 [] ∷ forget 2 ∷ []

abbrev directory : Directory toy_crypto
directory b = if bytes_equal (2 ∷ zeros 32) b then some 2 else none

node-Represents : Represents toy_crypto node directory
unfolding map_get public_key2_compressed copy_at
node-Represents = record {
  looked_up = λ b. ground arith;
  in_use = λ q h. ground arith;
  keyed = λ b k. elim (Bool-cases (bytes_equal (2 ∷ zeros 32) b)) [
    | inl hit ↦ rw hit (λ e.
        let two : 2 ≡ k = cc in
        bytes_equal-eq (k ∷ zeros 32) b (subst (λ z. bytes_equal (z ∷ zeros 32) b ≡ true) two hit))
    | inr miss ↦ rw miss (λ e. absurd (cc))
  ];
}

run-Represents_example :
    Represents toy_crypto (run toy_crypto calls node) (run_specified toy_crypto calls directory)
run-Represents_example = run-Represents toy_crypto calls node directory node-Represents
