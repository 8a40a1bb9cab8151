-- ===== src/Package/Validation.antt =====
-- `VotePackageV1`, `computeBallotPublicInputsHash` and `validateVotePackage` of
-- packages/crypto/src/index.ts.
use scalable_blockchain_voti.Prelude.{ℕ, List, [], ◌∷◌, ◌==◌}
use scalable_blockchain_voti.Outcome.{plain, Result, ok, guard, assertion, ◌>>=◌, ◌>>◌}
use scalable_blockchain_voti.Js.Texts.{Text, text, lower, text_eq}
use scalable_blockchain_voti.Viem.{
  Viem, bytes32, assert_bytes32, assert_hex_bytes, domain_hash, hash_abi,
}
use scalable_blockchain_voti.Package.Points.{exact_keys}
use scalable_blockchain_voti.Package.Ciphertext.{
  BallotCiphertext, ciphertext_keys, validate_ciphertext, digest_ballot_ciphertext,
}

abbrev pub vote_package_version : ℕ
vote_package_version = 1

unfoldable pub ballot_proof_system : Text
ballot_proof_system = text "groth16-ballot-validity-v1"

pub record BallotValidityProof : Type 0 where
  pub keys : List Text
  pub system : Text
  pub proof : Text
  pub public_inputs_hash : Text

pub record VotePackage : Type 0 where
  pub keys : List Text
  pub version : ℕ
  pub election_id : Text
  pub candidate_list_hash : Text
  pub ballot_nullifier : Text
  pub ciphertext : BallotCiphertext
  pub ballot_validity_proof : BallotValidityProof

unfoldable pub vote_package_keys : List Text
vote_package_keys =
    text "version"
    ∷ text "electionId"
    ∷ text "candidateListHash"
    ∷ text "ballotNullifier"
    ∷ text "ciphertext"
    ∷ text "ballotValidityProof"
    ∷ []

unfoldable pub ballot_proof_keys : List Text
ballot_proof_keys = text "system" ∷ text "proof" ∷ text "publicInputsHash" ∷ []

module _ (v : Viem) where
  unfoldable pub compute_ballot_public_inputs_hash :
      (election_id candidate_list_hash ballot_nullifier : Text) → BallotCiphertext → Result Text
  compute_ballot_public_inputs_hash election_id candidate_list_hash ballot_nullifier ciphertext = do
    assert_bytes32 v election_id (plain "electionId")
    assert_bytes32 v candidate_list_hash (plain "candidateListHash")
    assert_bytes32 v ballot_nullifier (plain "ballotNullifier")
    ciphertext_digest ← digest_ballot_ciphertext v ciphertext
    hash_abi v (
        bytes32 (domain_hash v "SVB_BALLOT_PUBLIC_INPUTS_V1")
        ∷ bytes32 (lower election_id)
        ∷ bytes32 (lower candidate_list_hash)
        ∷ bytes32 (lower ballot_nullifier)
        ∷ bytes32 ciphertext_digest
        ∷ [])

  -- what `validateVotePackage` returns once every check has passed
  abbrev pub normalized_package : VotePackage → BallotCiphertext → VotePackage
  normalized_package input ciphertext = record {
    keys = vote_package_keys;
    version = vote_package_version;
    election_id = lower input.election_id;
    candidate_list_hash = lower input.candidate_list_hash;
    ballot_nullifier = lower input.ballot_nullifier;
    ciphertext = ciphertext;
    ballot_validity_proof = record {
      keys = ballot_proof_keys;
      system = ballot_proof_system;
      proof = lower input.ballot_validity_proof.proof;
      public_inputs_hash = lower input.ballot_validity_proof.public_inputs_hash;
    };
  }

  unfoldable pub validate_vote_package : VotePackage → Result VotePackage
  validate_vote_package input = do
    exact_keys input.keys vote_package_keys (plain "vote package")
    guard (input.version == vote_package_version) (assertion "unsupported vote package version")
    assert_bytes32 v input.election_id (plain "electionId")
    assert_bytes32 v input.candidate_list_hash (plain "candidateListHash")
    assert_bytes32 v input.ballot_nullifier (plain "ballotNullifier")
    exact_keys input.ciphertext.keys ciphertext_keys (plain "ciphertext")
    ciphertext ← validate_ciphertext v input.ciphertext
    exact_keys input.ballot_validity_proof.keys ballot_proof_keys (plain "ballot validity proof")
    guard (text_eq input.ballot_validity_proof.system ballot_proof_system)
        (assertion "unsupported ballot proof system")
    assert_hex_bytes v input.ballot_validity_proof.proof (plain "ballotValidityProof.proof")
    assert_bytes32 v input.ballot_validity_proof.public_inputs_hash (plain "publicInputsHash")
    expected ←
        compute_ballot_public_inputs_hash input.election_id input.candidate_list_hash
          input.ballot_nullifier ciphertext
    guard (text_eq (lower input.ballot_validity_proof.public_inputs_hash) expected)
        (assertion "ballot proof public inputs do not match vote package")
    ok (normalized_package input ciphertext)
