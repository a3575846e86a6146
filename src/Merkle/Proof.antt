-- ===== src/Merkle/Proof.antt =====
-- The proofs that are built verify.
use solonpad_contracts.Base.{
  List, Option-cases, [], arith, get_elem?, inl, inr, length, none, some, suc, zero, ℕ, ◌/◌, ◌<◌,
  ◌∷◌, ◌≡◌, ◌≤◌,
}
use solonpad_contracts.Merkle.{
  next_level, pair, process_proof, proof_for, proof_level, push_sibling, root_level, root_of,
  sibling,
}

module _ (keccak : ℕ → ℕ → ℕ) where
  pair_comm : (a b : ℕ) → pair keccak a b ≡ pair keccak b a
  unfolding pair
  pair_comm a b = ground arith

  length-next_level :
      (level : List ℕ)
      → (length (next_level keccak level) ≤ length level)
        × (1 < length level → length (next_level keccak level) < length level)
  unfolding next_level
  length-next_level [] = ground arith
  length-next_level (x ∷ []) = ground arith
  length-next_level (x ∷ y ∷ rest) = ground (arith, length-next_level rest)

  -- The parent of a node is the pair of it and its sibling, or the node itself where it has none.
  next_level_at :
      (level : List ℕ) (i : ℕ) {x : ℕ}
      → get_elem? level i ≡ some x
      → get_elem? (next_level keccak level) (i / 2)
        ≡ some (elim (get_elem? level (sibling i)) [ none ↦ x | some y ↦ pair keccak x y ])
  unfolding next_level sibling
  next_level_at [] i h = cc
  next_level_at (x ∷ []) zero h = ground arith
  next_level_at (x ∷ []) (suc i) h = cc
  next_level_at (x ∷ y ∷ rest) zero h = ground arith
  next_level_at (x ∷ y ∷ rest) (suc zero) h = ground (arith, pair_comm x y)
  next_level_at (x ∷ y ∷ rest) (suc (suc i)) {x = z} h =
      let parent : suc (suc i) / 2 ≡ suc (i / 2) = omega arith in
      let next : sibling (suc (suc i)) ≡ suc (suc (sibling i)) = ground arith in
      rw (parent, next) (next_level_at rest i h)

  proof_level_verifies :
      (fuel : ℕ) (level : List ℕ) (i : ℕ) {x : ℕ}
      → length level ≤ fuel
      → get_elem? level i ≡ some x
      → get_elem? (root_level keccak fuel level) 0
        ≡ some (process_proof keccak x (proof_level keccak fuel level i))
  unfolding root_level proof_level push_sibling process_proof
  proof_level_verifies zero [] i f h = cc
  proof_level_verifies zero (y ∷ level) i f h = absurd (omega arith)
  proof_level_verifies (suc fuel) [] i f h = cc
  proof_level_verifies (suc fuel) (y ∷ []) zero f h = h
  proof_level_verifies (suc fuel) (y ∷ []) (suc i) f h = cc
  proof_level_verifies (suc fuel) (y ∷ z ∷ rest) i {x} f h =
      let level = y ∷ z ∷ rest in
      let parent = next_level_at level i h in
      let shorter = (length-next_level level).1 (omega arith) in
      let above =
        proof_level_verifies fuel (next_level keccak level) (i / 2) (omega arith) parent in
      elim (Option-cases (get_elem? level (sibling i))) [
        | inl alone ↦ ground (arith, above, alone)
        | inr (s, paired) ↦ ground (arith, above, paired)
      ]

  -- The proof built for any leaf of a tree, of any shape, folds the leaf into the root of the tree.
  pub proof_for_verifies :
      (leaves : List ℕ) (i : ℕ) {x : ℕ}
      → get_elem? leaves i ≡ some x
      → root_of keccak leaves ≡ some (process_proof keccak x (proof_for keccak leaves i))
  unfolding root_of proof_for
  proof_for_verifies leaves i h = proof_level_verifies (length leaves) leaves i (omega arith) h
