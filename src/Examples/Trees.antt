-- ===== src/Examples/Trees.antt =====
-- The Merkle tree and the nullifier accumulator on concrete leaves.
use scalable_blockchain_voti.Prelude.{◌≡◌, ◌↔◌, ◌⊎◌, refl, true, false, List, [], ◌∷◌, ◌++◌, All}
use scalable_blockchain_voti.Outcome.{ok, err, labelled, at, assertion, guard, map_result}
use scalable_blockchain_voti.Js.Texts.{Text, text, text_eq, text_lt, lower, lower_unit}
use scalable_blockchain_voti.Js.Sets.{member, set_of}
use scalable_blockchain_voti.Js.Sorting.{sort_by, sort_texts}
use scalable_blockchain_voti.Js.Numbers.{natural, is_integer, at_least, to_natural}
use scalable_blockchain_voti.Viem.{is_bytes32, assert_bytes32, domain_hash, hash_abi}
use scalable_blockchain_voti.Viem.Laws.{IsDigest, Collision}
use scalable_blockchain_voti.Merkle.{
  MerkleProofStep, right, hash_merkle_pair, normalize_leaves, next_level, root_loop, merkle_root,
  proof_loop, merkle_proof, climb, verify_loop, verify_merkle_proof, present, sibling_index,
}
use scalable_blockchain_voti.Merkle.Completeness.{merkle_proof_verifies}
use scalable_blockchain_voti.Merkle.Soundness.{merkle_root_binds}
use scalable_blockchain_voti.Merkle.Depth.{Depth, merkle_proof-Depth}
use scalable_blockchain_voti.Merkle.Totality.{merkle_root_iff, merkle_root_bad}
use scalable_blockchain_voti.Examples.Encoder.{write}
use scalable_blockchain_voti.Examples.Toy.{
  toy, toy_laws, toy-IsInjective, toy_digest, total, strict_hex, are_digits, is_digit,
}

unfoldable pub suite : Unit {0}
unfolding is_bytes32 assert_bytes32 domain_hash hash_abi hash_merkle_pair normalize_leaves
    next_level root_loop merkle_root proof_loop merkle_proof climb verify_loop verify_merkle_proof
    present sibling_index guard map_result text text_eq text_lt lower lower_unit member set_of
    sort_by sort_texts is_integer at_least to_natural write toy_digest total strict_hex are_digits
    is_digit
suite = tt

abbrev pub leaf_a : Text
leaf_a = text "0xAA00000000000000000000000000000000000000000000000000000000000001"

abbrev pub leaf_b : Text
leaf_b = text "0xbb00000000000000000000000000000000000000000000000000000000000002"

abbrev pub leaf_c : Text
leaf_c = text "0xcc00000000000000000000000000000000000000000000000000000000000003"

abbrev three : List Text
three = leaf_a ∷ leaf_b ∷ leaf_c ∷ []

three_fit : All (λ l. is_bytes32 toy l ≡ true) three
unfolding suite
three_fit = (refl, (refl, (refl, tt)))

merkle_proof_verifies_example :
    (root : Text) × (proof : List MerkleProofStep) × (merkle_root toy three ≡ ok root)
    × IsDigest toy root
    × (merkle_proof toy three (natural 2) ≡ ok proof)
    × (verify_merkle_proof toy leaf_c proof root ≡ ok true)
merkle_proof_verifies_example = merkle_proof_verifies toy toy_laws three 2 three_fit refl

abbrev root_three : Text
root_three = text "0x0000000000000000000000000000000000000000000000000000000000000002"

-- The tests of a three-leaf tree: its root, and the errors.
tree_tests :
    (merkle_root toy three ≡ ok root_three)
    × (merkle_root toy []
        ≡ ok (text "0x0000000000000000000000000000000000000000000000000000000000000000"))
    × (merkle_proof toy three (natural 3) ≡ err (assertion "leafIndex out of range"))
unfolding suite
tree_tests = (refl, refl, refl)

-- An odd level pairs its last node with itself, so the last leaf twice gives the same root.
last_leaf_twice : merkle_root toy (three ++ leaf_c ∷ []) ≡ ok root_three
unfolding suite
last_leaf_twice = refl

abbrev step_b : List MerkleProofStep
step_b = record { sibling = leaf_b; direction = right } ∷ []

abbrev root_two : Text
root_two = text "0x0000000000000000000000000000000000000000000000000000000000000008"

verified_a : verify_merkle_proof toy leaf_a step_b root_two ≡ ok true
unfolding suite
verified_a = refl

verified_lower_a : verify_merkle_proof toy (lower leaf_a) step_b root_two ≡ ok true
unfolding suite
verified_lower_a = refl

merkle_root_binds_example : (lower leaf_a ≡ lower (lower leaf_a)) ⊎ Collision toy
merkle_root_binds_example =
    merkle_root_binds toy toy_laws toy-IsInjective step_b step_b leaf_a (lower leaf_a) root_two refl
      verified_a verified_lower_a

proof_a : merkle_proof toy (leaf_a ∷ leaf_b ∷ []) (natural 0) ≡ ok step_b
unfolding suite
proof_a = refl

merkle_proof-Depth_example : Depth 1 2
merkle_proof-Depth_example =
    merkle_proof-Depth toy (leaf_a ∷ leaf_b ∷ []) (natural 0) step_b proof_a

merkle_root_iff_example :
    ((root : Text) × (merkle_root toy three ≡ ok root))
    ↔ All (λ leaf. is_bytes32 toy leaf ≡ true) three
merkle_root_iff_example = merkle_root_iff toy toy_laws three

short_refused : is_bytes32 toy (text "0x12") ≡ false
unfolding suite
short_refused = refl

merkle_root_bad_example :
    merkle_root toy (three ++ text "0x12" ∷ leaf_a ∷ [])
    ≡ err (labelled (at "leaf" 3) "must be a 32-byte hex string")
merkle_root_bad_example =
    merkle_root_bad toy three (text "0x12") (leaf_a ∷ []) three_fit short_refused
