-- ===== src/Merkle/Tests.antt =====
-- A tree of three leaves.
use solonpad_contracts.Base.{List, [], refl, some, ℕ, ◌*◌, ◌+◌, ◌∷◌, ◌≡◌}
use solonpad_contracts.Merkle.{next_level, pair, process_proof, proof_for, root_level, root_of}
use solonpad_contracts.Merkle.Proof.{proof_for_verifies}

-- A stand-in for the hash.
abbrev toy : ℕ → ℕ → ℕ
toy a b = 10 * a + b

abbrev leaves : List ℕ
leaves = 3 ∷ (1 ∷ (4 ∷ []))

leaves_root : root_of toy leaves ≡ some 53
unfolding root_of root_level next_level pair
leaves_root = refl

proof_for_verifies_example :
    root_of toy leaves ≡ some (process_proof toy 1 (proof_for toy leaves 1))
proof_for_verifies_example = proof_for_verifies toy leaves 1 {x = 1} refl
