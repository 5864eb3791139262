-- ===== src/Fills/Merkle/Proofs.antt =====
-- Which of the proofs that `getProof` gives `verifyProof` accepts.
use over_sync.Prelude.{
  ℕ, zero, suc, ◌+◌, ◌≤◌, ◌≡◌, ◌≢◌, ◌↔◌, refl, Bool, true, false, some, List, [], ◌∷◌, length,
  is_empty, map, Text, text_beq_iff, text_eq, ==_refl, arith,
}
use over_sync.Fills.Merkle.{
  hash_secret, combine, MerkleNode, leaf, leaves_from, next_level, climb, build_tree,
  generate_proof, get_proof, compute_proof_hash, leaf_at, verify_proof,
}

module _ (keccak256 : List ℕ → Text) where
  length-next_level :
      (a b : MerkleNode) (nodes : List MerkleNode)
      → length (next_level keccak256 (a ∷ b ∷ nodes)) ≤ length nodes + 1
  unfolding next_level
  length-next_level a b [] = omega arith
  length-next_level a b (c ∷ []) = omega arith
  length-next_level a b (c ∷ d ∷ nodes) = omega (arith, length-next_level c d nodes)

  next_level_some :
      (a b : MerkleNode) (nodes : List MerkleNode)
      → is_empty (next_level keccak256 (a ∷ b ∷ nodes)) ≡ false
  unfolding next_level
  next_level_some a b nodes = refl

  climb_ends :
      (fuel : ℕ) (nodes : List MerkleNode)
      → is_empty nodes ≡ false
      → length nodes ≤ fuel + 1
      → (root : MerkleNode) × (climb keccak256 fuel nodes ≡ some root)
  unfolding climb
  climb_ends fuel [] e h = absurd (ground arith)
  climb_ends fuel (node ∷ []) e h = (node, refl)
  climb_ends zero (node ∷ b ∷ nodes) e h = absurd (omega arith)
  climb_ends (suc fuel) (node ∷ b ∷ nodes) e h =
      climb_ends fuel (next_level keccak256 (node ∷ b ∷ nodes)) (next_level_some node b nodes)
        (omega (arith, length-next_level node b nodes))

  length-map_leaf : (hashes : List Text) → length (map leaf hashes) ≡ length hashes
  length-map_leaf [] = refl
  length-map_leaf (h ∷ hashes) = omega (arith, length-map_leaf hashes)

  -- The loop of `buildTree` ends with a root for every list of leaves that is not empty: the number of
  -- leaves is fuel enough.
  pub build_tree_ends :
      (hash : Text) (hashes : List Text)
      → (root : MerkleNode) × (build_tree keccak256 (hash ∷ hashes) ≡ some root)
  unfolding build_tree
  build_tree_ends hash hashes =
      climb_ends (suc (length hashes)) (leaf hash ∷ map leaf hashes) refl
        (omega (arith, length-map_leaf hashes))

  -- What a verifier says of the proof that the tree of `hashes` gives for a leaf.
  abbrev pub own_proof_accepted : (total percentage : ℕ) → List Text → ℕ → Text → Text → Bool
  own_proof_accepted total percentage hashes leaf_index secret_hash merkle_root =
      verify_proof keccak256 (leaves_from total percentage 0 0 hashes) leaf_index secret_hash
        (get_proof (build_tree keccak256 hashes) (length hashes) leaf_index) merkle_root

  -- With two leaves the proof of the first is accepted, and the proof of the second only if the order
  -- of the two makes no difference to their combined hash.
  pub two_leaves_accepted :
      (total : ℕ) (a b : Text)
      → let accepted = own_proof_accepted total 50 (a ∷ b ∷ []) in
        let root = combine keccak256 a b in
        (accepted 0 a root ≡ true) × ((accepted 1 b root ≡ true) ↔ (combine keccak256 b a ≡ root))
  unfolding verify_proof leaves_from leaf_at get_proof build_tree climb next_level generate_proof
      compute_proof_hash
  two_leaves_accepted total a b = (
    rw (==_refl a, ==_refl (combine keccak256 a b)) refl,
    rw (==_refl b) (text_beq_iff (combine keccak256 b a) (combine keccak256 a b)),
  )

  abbrev pub four_leaves : Text → Text → Text → Text → List Text
  four_leaves s₀ s₁ s₂ s₃ =
      hash_secret keccak256 s₀
      ∷ hash_secret keccak256 s₁
      ∷ hash_secret keccak256 s₂
      ∷ hash_secret keccak256 s₃
      ∷ []

  abbrev pub root_of_four : Text → Text → Text → Text → Text
  root_of_four s₀ s₁ s₂ s₃ =
      combine keccak256 (combine keccak256 (hash_secret keccak256 s₀) (hash_secret keccak256 s₁))
        (combine keccak256 (hash_secret keccak256 s₂) (hash_secret keccak256 s₃))

  -- Two different inputs with the same hash
  abbrev pub Collision : Type 0
  Collision = (x y : List ℕ) × (x ≢ y) × (keccak256 x ≡ keccak256 y)
