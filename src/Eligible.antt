-- ===== src/Eligible.antt =====
-- The vote packages of packages/crypto/src/eligiblePipeline.ts: `validateEligibleVotePackage`, its
-- JSON, its digest and `verifyEligibleVotePackageProof`.
pub mod Batches
pub mod Bound
pub mod Built
pub mod Accumulated
use scalable_blockchain_voti.Prelude.{ℕ, String, Bool, List, [], ◌∷◌, ◌++◌, map, drop, ltb, ◌==◌}
use scalable_blockchain_voti.Outcome.{
  plain, Result, ok, err, unlabelled, assertion, labelled, guard, ◌>>=◌, ◌>>◌,
}
use scalable_blockchain_voti.Js.Texts.{Text, text, lower, text_eq}
use scalable_blockchain_voti.Js.Json.{
  Json, Members, number, string, object, done, member, canonicalize, stringify,
}
use scalable_blockchain_voti.Viem.{Viem, bytes32, bytes, domain_hash, hash_abi}
use scalable_blockchain_voti.Tally.Shares.{hex_digits}
use scalable_blockchain_voti.Eligibility.Commitments.{
  snark_scalar_field, flat, bytes32_to_snark_field, compute_eligible_package_commitment,
  hash_eligible_ballot_public_signals,
}
use scalable_blockchain_voti.Jub.{
  BabyJub, CiphertextJson, only_keys, point_to_naturals, commitment_to_bytes32, naturals_eq,
  assert_hex32, validate_ciphertext_json,
}
use scalable_blockchain_voti.Compatible.{
  BallotProofJson, proof_json_keys, ProofEnvelope, Snark, ciphertext_json, proof_json,
  check_proof_json, check_subgroups,
}

abbrev pub eligible_vote_package_version : ℕ
eligible_vote_package_version = 3

abbrev pub eligible_ballot_proof_system : Text
eligible_ballot_proof_system = text "groth16-eligible-ballot-babyjubjub-v1"

pub record EligibleVotePackage : Type 0 where
  pub keys : List Text
  pub version : ℕ
  pub election_id : Text
  pub candidate_list_hash : Text
  pub eligibility_root : Text
  pub ballot_nullifier : Text
  pub package_commitment : Text
  pub ciphertext : CiphertextJson
  pub ballot_validity_proof : BallotProofJson

abbrev pub eligible_package_keys : List Text
eligible_package_keys =
    text "version"
    ∷ text "electionId"
    ∷ text "candidateListHash"
    ∷ text "eligibilityRoot"
    ∷ text "ballotNullifier"
    ∷ text "packageCommitment"
    ∷ text "ciphertext"
    ∷ text "ballotValidityProof"
    ∷ []

unfoldable pub eligible_package_json : EligibleVotePackage → Json
eligible_package_json p = object (
    member (text "version") (number p.version) (
      member (text "electionId") (string p.election_id) (
        member (text "candidateListHash") (string p.candidate_list_hash) (
          member (text "eligibilityRoot") (string p.eligibility_root) (
            member (text "ballotNullifier") (string p.ballot_nullifier) (
              member (text "packageCommitment") (string p.package_commitment) (
                member (text "ciphertext") (ciphertext_json p.ciphertext) (
                  member (text "ballotValidityProof") (proof_json p.ballot_validity_proof)
                    done))))))))

-- BigInt(value), of a 32-byte hex string
unfoldable pub assert_canonical_field : Text → String → Result ℕ
assert_canonical_field value label = do
  let field_value = hex_digits 0 (drop 2 (lower value))
  guard (ltb field_value snark_scalar_field) (labelled (plain label) "is not canonical")
  ok field_value

module _ {F : Type 0} (jub : BabyJub F) (v : Viem) (snark : Snark) where
  -- from the commitment on: the statement that the proof is compared with
  unfoldable pub check_eligible_statement :
      EligibleVotePackage
      → (eligibility_root ballot_nullifier : ℕ) → CiphertextJson
      → Result (Unit {0})
  check_eligible_statement input eligibility_root ballot_nullifier ciphertext = do
    let key = point_to_naturals ciphertext.election_public_key
    let c1 = map point_to_naturals ciphertext.c1
    let c2 = map point_to_naturals ciphertext.c2
    election ← bytes32_to_snark_field v input.election_id
    candidates ← bytes32_to_snark_field v input.candidate_list_hash
    commitment ←
        compute_eligible_package_commitment snark.poseidon election candidates eligibility_root
          ballot_nullifier key c1 c2
    expected ← commitment_to_bytes32 commitment
    guard (text_eq (lower input.package_commitment) expected)
        (assertion "package commitment does not bind the eligibility root and ciphertext")
    envelope ← snark.decode_proof 23 input.ballot_validity_proof.proof
    let signals =
        election
        ∷ candidates
        ∷ eligibility_root
        ∷ ballot_nullifier
        ∷ commitment
        ∷ key.0
        ∷ key.1
        ∷ (flat c1 ++ flat c2)
    guard (naturals_eq envelope.public_signals signals)
        (assertion "proof public signals do not match package")
    hash ← hash_eligible_ballot_public_signals v signals
    guard (text_eq (lower input.ballot_validity_proof.public_inputs_hash) hash)
        (assertion "proof public-input hash does not match package")
    check_subgroups jub key c1 c2

  -- the object that is returned
  abbrev pub eligible_normalized : EligibleVotePackage → CiphertextJson → EligibleVotePackage
  eligible_normalized input ciphertext = record {
    keys = eligible_package_keys;
    version = eligible_vote_package_version;
    election_id = lower input.election_id;
    candidate_list_hash = lower input.candidate_list_hash;
    eligibility_root = lower input.eligibility_root;
    ballot_nullifier = lower input.ballot_nullifier;
    package_commitment = lower input.package_commitment;
    ciphertext = ciphertext;
    ballot_validity_proof = record {
      keys = proof_json_keys;
      system = eligible_ballot_proof_system;
      proof = lower input.ballot_validity_proof.proof;
      public_inputs_hash = lower input.ballot_validity_proof.public_inputs_hash;
    };
  }

  unfoldable pub validate_eligible_vote_package : EligibleVotePackage → Result EligibleVotePackage
  validate_eligible_vote_package input = do
    only_keys input.keys eligible_package_keys "eligible vote package"
    guard (input.version == eligible_vote_package_version) unlabelled
    assert_hex32 v input.election_id "electionId"
    assert_hex32 v input.candidate_list_hash "candidateListHash"
    assert_hex32 v input.eligibility_root "eligibilityRoot"
    assert_hex32 v input.ballot_nullifier "ballotNullifier"
    assert_hex32 v input.package_commitment "packageCommitment"
    eligibility_root ← assert_canonical_field input.eligibility_root "eligibilityRoot"
    ballot_nullifier ← assert_canonical_field input.ballot_nullifier "ballotNullifier"
    package_commitment ← assert_canonical_field input.package_commitment "packageCommitment"
    ciphertext ← validate_ciphertext_json v "eligible ciphertext" input.ciphertext
    check_proof_json v "eligible ballot proof" eligible_ballot_proof_system
        input.ballot_validity_proof
    check_eligible_statement input eligibility_root ballot_nullifier ciphertext
    ok (eligible_normalized input ciphertext)

  unfoldable pub serialize_eligible_vote_package : EligibleVotePackage → Result Text
  serialize_eligible_vote_package input = do
    validated ← validate_eligible_vote_package input
    ok (stringify (canonicalize v.locale_le (eligible_package_json validated)) ++ 10 ∷ [])

  unfoldable pub digest_eligible_vote_package : EligibleVotePackage → Result Text
  digest_eligible_vote_package input = do
    canonical ← serialize_eligible_vote_package input
    hash_abi v (
        bytes32 (domain_hash v "SVB_ELIGIBLE_VOTE_PACKAGE_V3")
        ∷ bytes (v.string_to_hex canonical)
        ∷ [])

  -- the files and the process of `snarkjs groth16 verify` are `groth16_verify`
  unfoldable pub verify_eligible_vote_package_proof : EligibleVotePackage → Text → Result Bool
  verify_eligible_vote_package_proof input verification_key = do
    validated ← validate_eligible_vote_package input
    decoded ← snark.decode_proof 23 validated.ballot_validity_proof.proof
    snark.groth16_verify verification_key decoded
