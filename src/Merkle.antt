-- ===== src/Merkle.antt =====
-- The checkpoint Merkle tree (keepers/v3/lib/merkle.mjs). A hash is a number; keccak256 over two of them
-- is outside the program and a parameter. The loops run on fuel, the number of leaves.
pub mod Proof
mod Tests
use solonpad_contracts.Base.{
  List, Option, [], get_elem?, if◌then◌else◌, leb, length, ltb, none, some, suc, zero, ℕ, ◌%◌, ◌+◌,
  ◌-◌, ◌/◌, ◌==◌, ◌∷◌,
}

-- `i ^ 1`: the index with its lowest bit flipped.
pub sibling : ℕ → ℕ
sibling i = if i % 2 == 0 then i + 1 else i - 1

module _ (keccak : ℕ → ℕ → ℕ) where
  -- `pair`: the smaller hash goes first.
  pub pair : ℕ → ℕ → ℕ
  pair a b = if ltb a b then keccak a b else keccak b a

  -- One level up: pairs, and an odd node carried up.
  pub next_level : List ℕ → List ℕ
  next_level [] = []
  next_level (x ∷ []) = x ∷ []
  next_level (x ∷ y ∷ rest) = pair x y ∷ next_level rest

  -- The loop of `rootOf`.
  pub root_level : (fuel : ℕ) → List ℕ → List ℕ
  root_level zero level = level
  root_level (suc fuel) level =
      let above = root_level fuel (next_level level) in
      if leb (length level) 1 then level else above

  -- `rootOf`; of no leaf the source gives `undefined`.
  pub root_of : List ℕ → Option ℕ
  root_of leaves = get_elem? (root_level (length leaves) leaves) 0

  -- `if (sib < lv.length) proof.push(lv[sib])`
  pub push_sibling : List ℕ → ℕ → List ℕ → List ℕ
  push_sibling level i rest = elim (get_elem? level (sibling i)) [ none ↦ rest | some h ↦ h ∷ rest ]

  -- The loop of `proofFor`.
  pub proof_level : (fuel : ℕ) → List ℕ → ℕ → List ℕ
  proof_level zero level i = []
  proof_level (suc fuel) level i =
      let above = proof_level fuel (next_level level) (i / 2) in
      if leb (length level) 1 then [] else push_sibling level i above

  -- `proofFor`
  pub proof_for : List ℕ → ℕ → List ℕ
  proof_for leaves index = proof_level (length leaves) leaves index

  -- What the checkpoint's verifier computes from a leaf and a proof: the sorted pairs, from the leaf up.
  pub process_proof : ℕ → List ℕ → ℕ
  process_proof h [] = h
  process_proof h (p ∷ proof) = process_proof (pair h p) proof
