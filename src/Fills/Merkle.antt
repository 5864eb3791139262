-- ===== src/Fills/Merkle.antt =====
-- `MerkleTreeSecrets` of relayer/src/merkle-tree.ts, from the hashes of the secrets on. A fraction is
-- where the source computes one: `BigInt` of it throws, which is `none` here.
pub mod Proofs
use over_sync.Prelude.{
  ◌++◌, ◌&&◌, is_hex, ℕ, zero, suc, ◌+◌, ◌-◌, ◌*◌, ◌/◌, ◌%◌, Bool, true, false, not, Option, none,
  some, List, [], ◌∷◌, length, map, ltb, leb, ◌=ℕ◌, ◌==◌, text_eq, if◌then◌else◌, Text,
}
use over_sync.Secrets.{hex_value}

-- `MerkleLeaf`, without its proof, which is computed from the tree when it is asked for
pub record MerkleLeaf : Type 0 where
  pub index : ℕ
  pub secret_hash : Text
  pub fill_amount : ℕ
  pub cumulative_amount : ℕ

-- `MerkleNode`: a leaf, a node of two, or a node over one that is paired with itself
pub data MerkleNode : Type 0 where
  leaf : Text → MerkleNode
  pair : Text → MerkleNode → MerkleNode → MerkleNode
  single : Text → MerkleNode → MerkleNode

abbrev pub node_hash : MerkleNode → Text
node_hash (leaf h) = h
node_hash (pair h left right) = h
node_hash (single h left) = h

-- `fragmentSize = 100 / secretsCount`, if it is an integer
abbrev pub fragment_size : ℕ → Option ℕ
fragment_size secrets_count = if 100 % secrets_count =ℕ 0 then some (100 / secrets_count) else none

-- The loop of `createMerkleTree` over the secrets' hashes
unfoldable pub leaves_from : (total percentage index cumulative : ℕ) → List Text → List MerkleLeaf
leaves_from total percentage index cumulative [] = []
leaves_from total percentage index cumulative (hash ∷ hashes) =
    let fill = total * percentage / 100 in
    record {
      index = index;
      secret_hash = hash;
      fill_amount = fill;
      cumulative_amount = cumulative + fill;
    }
    ∷ leaves_from total percentage (index + 1) (cumulative + fill) hashes

-- `s.replace('0x', '')`
abbrev without_0x : Text → Text
without_0x [] = []
without_0x (c ∷ []) = c ∷ []
without_0x (z ∷ x ∷ s) =
    let rest = without_0x (x ∷ s) in if z =ℕ b'0' && x =ℕ b'x' then s else z ∷ rest

-- `Buffer.from(s, 'hex')`: the pairs of digits, up to one that is none.
abbrev buffer_from_hex : Text → List ℕ
buffer_from_hex (a ∷ b ∷ s) =
    let rest = buffer_from_hex s in
    if is_hex a && is_hex b then (hex_value a * 16 + hex_value b) ∷ rest else []
buffer_from_hex _ = []

unfoldable pub hash_bytes : Text → List ℕ
hash_bytes s = buffer_from_hex (without_0x s)

-- `keccak256` is the library's hash of bytes, a text.
module _ (keccak256 : List ℕ → Text) where
  -- `hashSecret`
  abbrev pub hash_secret : Text → Text
  hash_secret secret = keccak256 (hash_bytes secret)

  -- The hash of two hashes, as `buildTree` and `computeProofHash` compute it
  abbrev pub combine : Text → Text → Text
  combine left right = keccak256 (hash_bytes left ++ hash_bytes right)

  -- One turn of the loop of `buildTree`: the next level
  unfoldable pub next_level : List MerkleNode → List MerkleNode
  next_level [] = []
  next_level (left ∷ []) = single (combine (node_hash left) (node_hash left)) left ∷ []
  next_level (left ∷ right ∷ nodes) =
      pair (combine (node_hash left) (node_hash right)) left right ∷ next_level nodes

  -- The loop; a fuel of the number of nodes is enough, see `root_of`.
  unfoldable pub climb : ℕ → List MerkleNode → Option MerkleNode
  unfolding next_level
  climb fuel [] = none
  climb fuel (node ∷ []) = some node
  climb zero (a ∷ b ∷ nodes) = none
  climb (suc fuel) (a ∷ b ∷ nodes) = climb fuel (next_level (a ∷ b ∷ nodes))

  -- `buildTree`
  unfoldable pub build_tree : List Text → Option MerkleNode
  unfolding climb
  build_tree hashes = climb (length hashes) (map leaf hashes)

-- `generateProof`, on the leaves from `start` to `end`
unfoldable pub generate_proof : MerkleNode → (leaf_index start end : ℕ) → List Text
generate_proof (leaf h) leaf_index start end = []
generate_proof (pair h left right) leaf_index start end =
    let mid = (start + end) / 2 in
    let on_left = node_hash right ∷ generate_proof left leaf_index start mid in
    let on_right = node_hash left ∷ generate_proof right leaf_index (mid + 1) end in
    if start =ℕ end then [] else if leb leaf_index mid then on_left else on_right
generate_proof (single h left) leaf_index start end =
    let mid = (start + end) / 2 in
    let on_left = generate_proof left leaf_index start mid in
    if start =ℕ end then [] else if leb leaf_index mid then on_left else node_hash left ∷ []

-- `getProof`
unfoldable pub get_proof : Option MerkleNode → (leaves leaf_index : ℕ) → List Text
unfolding generate_proof
get_proof none leaves leaf_index = []
get_proof (some root) leaves leaf_index =
    if leb leaves leaf_index then [] else generate_proof root leaf_index 0 (leaves - 1)

-- `computeProofHash`
unfoldable pub compute_proof_hash : (List ℕ → Text) → Text → List Text → Text
compute_proof_hash keccak256 hash [] = hash
compute_proof_hash keccak256 hash (proof_hash ∷ proof) =
    compute_proof_hash keccak256 (combine keccak256 hash proof_hash) proof

-- `this.leaves[i]`
unfoldable pub leaf_at : List MerkleLeaf → ℕ → Option MerkleLeaf
leaf_at [] i = none
leaf_at (l ∷ ls) zero = some l
leaf_at (l ∷ ls) (suc i) = leaf_at ls i

abbrev verify_leaf : (List ℕ → Text) → Option MerkleLeaf → Text → List Text → Text → Bool
unfolding compute_proof_hash
verify_leaf keccak256 none secret_hash proof merkle_root = false
verify_leaf keccak256 (some l) secret_hash proof merkle_root =
    if l.secret_hash == secret_hash
    then compute_proof_hash keccak256 l.secret_hash proof == merkle_root
    else false

-- `verifyProof`
unfoldable pub verify_proof : (List ℕ → Text) → List MerkleLeaf → ℕ → Text → List Text → Text → Bool
unfolding leaf_at compute_proof_hash
verify_proof keccak256 leaves leaf_index secret_hash proof merkle_root =
    verify_leaf keccak256 (leaf_at leaves leaf_index) secret_hash proof merkle_root

-- `validatePartialFill`, with what it answers
pub data PartialFillAnswer : Type 0 where
  invalid_index invalid_secret exceeds_limit not_progressive : PartialFillAnswer
  accepted : (next_secret : Option Text) → PartialFillAnswer

abbrev hash_of : Option MerkleLeaf → Option Text
hash_of none = none
hash_of (some l) = some l.secret_hash

-- `currentFilled < previousLeaf.cumulativeAmount`, where there is a previous leaf
abbrev skips : List MerkleLeaf → ℕ → ℕ → Bool
skips leaves zero current = false
skips leaves (suc i) current = elim (leaf_at leaves i) [
  | none ↦ false
  | some previous ↦ ltb current previous.cumulative_amount
]

abbrev validate_leaf :
    List MerkleLeaf → ℕ → Option MerkleLeaf → Text → (fill current : ℕ) → PartialFillAnswer
unfolding leaf_at
validate_leaf leaves i none secret_hash fill current = invalid_index
validate_leaf leaves i (some l) secret_hash fill current =
    if not (l.secret_hash == secret_hash)
    then invalid_secret
    else if ltb l.cumulative_amount (current + fill)
    then exceeds_limit
    else if skips leaves i current
    then not_progressive
    else accepted (hash_of (leaf_at leaves (i + 1)))

unfoldable pub validate_partial_fill :
    List MerkleLeaf → ℕ → Text → (fill current : ℕ) → PartialFillAnswer
unfolding leaf_at
validate_partial_fill leaves fragment_index secret_hash fill current =
    validate_leaf leaves fragment_index (leaf_at leaves fragment_index) secret_hash fill current
