-- ===== src/Merkle.antt =====
-- The Merkle tree of packages/crypto/src/index.ts: `hashMerklePair`, `merkleRoot`, `merkleProof`,
-- `verifyMerkleProof`. The `while` loops take the number of leaves for fuel.
pub mod Levels
pub mod Steps
pub mod Completeness
pub mod Soundness
pub mod Depth
pub mod Totality
use scalable_blockchain_voti.Prelude.{
  ℕ, zero, suc, ◌+◌, ◌-◌, ◌/◌, ◌%◌, Bool, true, false, ◌&&◌, Option, none, some, List, [], ◌∷◌, map,
  length, get_elem?, ltb, ◌==◌, if◌then◌else◌,
}
use scalable_blockchain_voti.Outcome.{
  Label, plain, at, Error, assertion, type_error, diverged, Result, ok, err, guard, ◌>>=◌, ◌>>◌,
}
use scalable_blockchain_voti.Js.Texts.{Text, text, lower, text_eq}
use scalable_blockchain_voti.Js.Numbers.{Number, natural, is_integer, at_least, to_natural}
use scalable_blockchain_voti.Viem.{Viem, bytes32, assert_bytes32, domain_hash, hash_abi}

pub data Direction : Type 0 where
  left right : Direction

pub record MerkleProofStep : Type 0 where
  pub sibling : Text
  pub direction : Direction

-- viem's `zeroHash`
abbrev pub zero_hash : Text
zero_hash = text "0x0000000000000000000000000000000000000000000000000000000000000000"

unfoldable pub sibling_index : ℕ → ℕ
sibling_index index = if index % 2 == 0 then index + 1 else index - 1

abbrev pub direction_of : ℕ → Direction
direction_of index = if index % 2 == 0 then right else left

-- `a ?? b`
abbrev pub or_else : Option Text → Option Text → Option Text
or_else none b = b
or_else (some a) b = some a

-- `a!` of what must be there
unfoldable pub present : Option Text → Result Text
present none = err type_error
present (some a) = ok a

module _ (v : Viem) where
  unfoldable pub hash_merkle_pair : Text → Text → Result Text
  hash_merkle_pair l r = do
    assert_bytes32 v l (plain "left")
    assert_bytes32 v r (plain "right")
    hash_abi v
        (bytes32 (domain_hash v "SVB_MERKLE_PAIR_V1") ∷ bytes32 (lower l) ∷ bytes32 (lower r) ∷ [])

  -- the `leaves.map` that checks and normalises
  unfoldable pub normalize_leaves : ℕ → List Text → Result (List Text)
  normalize_leaves index [] = ok []
  normalize_leaves index (leaf ∷ leaves) = do
    assert_bytes32 v leaf (at "leaf" index)
    rest ← normalize_leaves (index + 1) leaves
    ok (lower leaf ∷ rest)

  -- one round of the loop: the last of an odd number of nodes is paired with itself
  unfoldable pub next_level : List Text → Result (List Text)
  next_level [] = ok []
  next_level (l ∷ []) = do parent ← hash_merkle_pair l l; ok (parent ∷ [])
  next_level (l ∷ r ∷ level) = do
    parent ← hash_merkle_pair l r
    rest ← next_level level
    ok (parent ∷ rest)

  unfoldable pub root_loop : ℕ → List Text → Result Text
  root_loop fuel [] = err type_error
  root_loop fuel (root ∷ []) = ok root
  root_loop zero (l ∷ r ∷ level) = err diverged
  root_loop (suc fuel) (l ∷ r ∷ level) = do next ← next_level (l ∷ r ∷ level); root_loop fuel next

  unfoldable pub merkle_root : List Text → Result Text
  merkle_root [] = ok zero_hash
  merkle_root (leaf ∷ leaves) = do
    level ← normalize_leaves 0 (leaf ∷ leaves)
    root_loop (length level) level

  unfoldable pub proof_loop : ℕ → ℕ → List Text → Result (List MerkleProofStep)
  proof_loop fuel index [] = ok []
  proof_loop fuel index (root ∷ []) = ok []
  proof_loop zero index (l ∷ r ∷ level) = err diverged
  proof_loop (suc fuel) index (l ∷ r ∷ level) = do
    sibling ← present (
        or_else (get_elem? (l ∷ r ∷ level) (sibling_index index)) (get_elem? (l ∷ r ∷ level) index))
    next ← next_level (l ∷ r ∷ level)
    rest ← proof_loop fuel (index / 2) next
    ok (record { sibling = sibling; direction = direction_of index } ∷ rest)

  unfoldable pub merkle_proof : List Text → Number → Result (List MerkleProofStep)
  merkle_proof leaves leaf_index = do
    guard (is_integer leaf_index) (assertion "leafIndex must be an integer")
    guard (at_least 0 leaf_index && ltb (to_natural leaf_index) (length leaves))
        (assertion "leafIndex out of range")
    proof_loop (length leaves) (to_natural leaf_index) (map lower leaves)

  -- one round of `verifyMerkleProof`
  unfoldable pub climb : Direction → Text → Text → Result Text
  climb left sibling cursor = hash_merkle_pair sibling cursor
  climb right sibling cursor = hash_merkle_pair cursor sibling

  unfoldable pub verify_loop : Text → List MerkleProofStep → Result Text
  verify_loop cursor [] = ok cursor
  verify_loop cursor (step ∷ steps) = do
    assert_bytes32 v step.sibling (plain "proof sibling")
    parent ← climb step.direction step.sibling cursor
    verify_loop parent steps

  unfoldable pub verify_merkle_proof : Text → List MerkleProofStep → Text → Result Bool
  verify_merkle_proof leaf_hash proof expected_root = do
    cursor ← verify_loop (lower leaf_hash) proof
    ok (text_eq cursor (lower expected_root))
