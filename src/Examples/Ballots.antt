-- ===== src/Examples/Ballots.antt =====
-- Two vote packages, in upper and lower case, and the validation of one.
use scalable_blockchain_voti.Prelude.{◌≡◌, refl, [], ◌∷◌}
use scalable_blockchain_voti.Outcome.{ok, err, assertion}
use scalable_blockchain_voti.Js.Texts.{Text, text, trim}
use scalable_blockchain_voti.Viem.{assert_hex_bytes}
use scalable_blockchain_voti.Package.Points.{
  texts_eq, exact_keys, has_point_prefix, assert_compressed_point, assert_points,
}
use scalable_blockchain_voti.Package.Ciphertext.{
  BallotCiphertext, ballot_ciphertext_scheme, ciphertext_keys, validate_ciphertext,
  digest_ballot_ciphertext,
}
use scalable_blockchain_voti.Package.Validation.{
  VotePackage, ballot_proof_system, vote_package_keys, ballot_proof_keys,
  compute_ballot_public_inputs_hash, validate_vote_package, normalized_package,
}
use scalable_blockchain_voti.Package.Accepted.{normalized_ciphertext}
use scalable_blockchain_voti.Package.Normal.{validate_vote_package_idem}
use scalable_blockchain_voti.Package.Digest.{
  digest_vote_package, digest_content_id, hash_package_leaf,
}
use scalable_blockchain_voti.Examples.Toy.{toy, toy_laws}
use scalable_blockchain_voti.Examples.Trees.{suite, leaf_a, leaf_b, leaf_c}

unfoldable pub package_suite : Unit {0}
unfolding suite trim assert_hex_bytes texts_eq exact_keys has_point_prefix assert_compressed_point
    assert_points ballot_ciphertext_scheme ciphertext_keys validate_ciphertext
    digest_ballot_ciphertext ballot_proof_system vote_package_keys ballot_proof_keys
    compute_ballot_public_inputs_hash validate_vote_package digest_vote_package digest_content_id
    hash_package_leaf
package_suite = tt

abbrev point : Text
point = text "0x02AB0000000000000000000000000000000000000000000000000000000000000A"

abbrev pub ballot : BallotCiphertext
ballot = record {
  keys = ciphertext_keys;
  scheme = ballot_ciphertext_scheme;
  election_public_key_hash = leaf_c;
  points = point ∷ point ∷ point ∷ point ∷ [];
}

abbrev pub vote : Text → Text → VotePackage
vote nullifier inputs = record {
  keys = vote_package_keys;
  version = 1;
  election_id = leaf_a;
  candidate_list_hash = leaf_b;
  ballot_nullifier = nullifier;
  ciphertext = ballot;
  ballot_validity_proof = record {
    keys = ballot_proof_keys;
    system = ballot_proof_system;
    proof = text "0xAB";
    public_inputs_hash = inputs;
  };
}

abbrev pub nullifier_one : Text
nullifier_one = text "0x00000000000000000000000000000000000000000000000000000000000000F1"

abbrev pub nullifier_two : Text
nullifier_two = text "0x00000000000000000000000000000000000000000000000000000000000000F2"

abbrev pub vote_one : VotePackage
vote_one =
    vote nullifier_one (text "0x0000000000000000000000000000000000000000000000000000000000000008")

abbrev pub vote_two : VotePackage
vote_two =
    vote nullifier_two (text "0x0000000000000000000000000000000000000000000000000000000000000005")

abbrev pub normal_one : VotePackage
normal_one = normalized_package toy vote_one (normalized_ciphertext toy ballot)

vote_one_valid : validate_vote_package toy vote_one ≡ ok normal_one
unfolding package_suite
vote_one_valid = refl

-- The same package with another nullifier is no longer bound by its proof's public inputs.
vote_unbound :
    validate_vote_package toy (
      vote nullifier_one
        (text "0x0000000000000000000000000000000000000000000000000000000000000005"))
    ≡ err (assertion "ballot proof public inputs do not match vote package")
unfolding package_suite
vote_unbound = refl

validate_vote_package_idem_example : validate_vote_package toy normal_one ≡ ok normal_one
validate_vote_package_idem_example =
    validate_vote_package_idem toy toy_laws vote_one normal_one vote_one_valid
