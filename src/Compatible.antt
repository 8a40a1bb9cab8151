-- ===== src/Compatible.antt =====
-- The vote packages of packages/crypto/src/proofCompatiblePipeline.ts:
-- `validateProofCompatibleVotePackage`, its JSON and its digest.
pub mod Batches
pub mod Reduced
pub mod Accumulated
use scalable_blockchain_voti.Prelude.{
  ℕ, ◌+◌, String, Bool, ◌&&◌, List, [], ◌∷◌, ◌++◌, map, length, ◌==◌,
}
use scalable_blockchain_voti.Outcome.{
  Label, plain, at, Result, ok, err, unlabelled, assertion, labelled, guard, ◌>>=◌, ◌>>◌,
}
use scalable_blockchain_voti.Js.Texts.{Text, text, lower, text_eq}
use scalable_blockchain_voti.Js.Json.{
  Json, Items, Members, number, string, array, object, end, item, done, member, canonicalize,
  stringify,
}
use scalable_blockchain_voti.Viem.{Viem, bytes32, bytes, uint_array, domain_hash, hash_abi}
use scalable_blockchain_voti.Eligibility.Commitments.{
  BabyJubPoint, flat, bytes32_to_snark_field, compute_proof_compatible_package_commitment,
}
use scalable_blockchain_voti.Jub.{
  BabyJub, DecimalPoint, CiphertextJson, only_keys, point_to_naturals, commitment_to_bytes32,
  naturals_eq, assert_hex32, validate_ciphertext_json,
}

abbrev pub proof_compatible_vote_package_version : ℕ
proof_compatible_vote_package_version = 2

abbrev pub proof_compatible_ballot_proof_system : Text
proof_compatible_ballot_proof_system = text "groth16-ballot-validity-babyjubjub-v1"

pub record BallotProofJson : Type 0 where
  pub keys : List Text
  pub system : Text
  pub proof : Text
  pub public_inputs_hash : Text

pub record ProofCompatibleVotePackage : Type 0 where
  pub keys : List Text
  pub version : ℕ
  pub election_id : Text
  pub candidate_list_hash : Text
  pub ballot_nullifier : Text
  pub package_commitment : Text
  pub ciphertext : CiphertextJson
  pub ballot_validity_proof : BallotProofJson

abbrev pub compatible_package_keys : List Text
compatible_package_keys =
    text "version"
    ∷ text "electionId"
    ∷ text "candidateListHash"
    ∷ text "ballotNullifier"
    ∷ text "packageCommitment"
    ∷ text "ciphertext"
    ∷ text "ballotValidityProof"
    ∷ []

abbrev pub proof_json_keys : List Text
proof_json_keys = text "system" ∷ text "proof" ∷ text "publicInputsHash" ∷ []

-- What `decodeAbiParameters` reads from a proof: the points and the public signals.
pub record ProofEnvelope : Type 0 where
  pub p_a : ℕ × ℕ
  pub p_b : (ℕ × ℕ) × (ℕ × ℕ)
  pub p_c : ℕ × ℕ
  pub public_signals : List ℕ

-- The libraries beside `viem`: `poseidon` of `circomlibjs`, `decodeAbiParameters` for a number of
-- public signals, and `snarkjs groth16 verify`.
pub record Snark : Type 0 where
  pub poseidon : List ℕ → ℕ
  pub decode_proof : ℕ → Text → Result ProofEnvelope
  pub groth16_verify : (verification_key : Text) → ProofEnvelope → Result Bool

unfoldable pub point_json : DecimalPoint → Json
point_json point = array (item (string point.0) (item (string point.1) end))

unfoldable pub points_json : List DecimalPoint → Items
points_json [] = end
points_json (point ∷ points) = item (point_json point) (points_json points)

unfoldable pub ciphertext_json : CiphertextJson → Json
ciphertext_json ciphertext = object (
    member (text "scheme") (string ciphertext.scheme) (
      member (text "electionPublicKeyHash") (string ciphertext.election_public_key_hash) (
        member (text "electionPublicKey") (point_json ciphertext.election_public_key) (
          member (text "c1") (array (points_json ciphertext.c1))
            (member (text "c2") (array (points_json ciphertext.c2)) done)))))

unfoldable pub proof_json : BallotProofJson → Json
proof_json proof = object (
    member (text "system") (string proof.system) (
      member (text "proof") (string proof.proof)
        (member (text "publicInputsHash") (string proof.public_inputs_hash) done)))

unfoldable pub compatible_package_json : ProofCompatibleVotePackage → Json
compatible_package_json p = object (
    member (text "version") (number p.version) (
      member (text "electionId") (string p.election_id) (
        member (text "candidateListHash") (string p.candidate_list_hash) (
          member (text "ballotNullifier") (string p.ballot_nullifier) (
            member (text "packageCommitment") (string p.package_commitment) (
              member (text "ciphertext") (ciphertext_json p.ciphertext) (
                member (text "ballotValidityProof") (proof_json p.ballot_validity_proof) done)))))))

module _ (v : Viem) where
  -- the checks of a proof before its signals are read
  unfoldable pub check_proof_json : String → Text → BallotProofJson → Result (Unit {0})
  check_proof_json name system proof = do
    only_keys proof.keys proof_json_keys name
    guard (text_eq proof.system system) unlabelled
    guard (v.is_hex proof.proof) unlabelled
    assert_hex32 v proof.public_inputs_hash "publicInputsHash"

  unfoldable pub hash_proof_compatible_ballot_public_signals : List ℕ → Result Text
  hash_proof_compatible_ballot_public_signals public_signals = do
    guard (length public_signals == 22) (assertion "ballot proof requires 22 public signals")
    hash_abi v (
        bytes32 (domain_hash v "SVB_BABYJUB_BALLOT_PUBLIC_INPUTS_V1")
        ∷ uint_array 256 22 public_signals
        ∷ [])

module _ {F : Type 0} (jub : BabyJub F) where
  abbrev pub field_point : BabyJubPoint → F × F
  field_point (x, y) = (jub.e x, jub.e y)

  -- the points of one name, from an index on
  unfoldable pub check_subgroup : String → ℕ → List BabyJubPoint → Result (Unit {0})
  check_subgroup name index [] = ok tt
  check_subgroup name index (point ∷ points) = do
    guard (jub.in_subgroup (field_point point))
        (labelled (at name index) "is not in the BabyJubJub subgroup")
    check_subgroup name (index + 1) points

  unfoldable pub check_subgroups : BabyJubPoint → (c1 c2 : List BabyJubPoint) → Result (Unit {0})
  check_subgroups key c1 c2 = do
    guard (jub.in_subgroup (field_point key))
        (labelled (plain "electionPublicKey") "is not in the BabyJubJub subgroup")
    check_subgroup "c1" 0 c1
    check_subgroup "c2" 0 c2

  -- from the commitment on: the statement that the proof is compared with
  unfoldable pub check_compatible_statement :
      Viem → Snark → ProofCompatibleVotePackage → CiphertextJson → Result (Unit {0})
  check_compatible_statement v snark input ciphertext = do
    let key = point_to_naturals ciphertext.election_public_key
    let c1 = map point_to_naturals ciphertext.c1
    let c2 = map point_to_naturals ciphertext.c2
    election ← bytes32_to_snark_field v input.election_id
    candidates ← bytes32_to_snark_field v input.candidate_list_hash
    nullifier ← bytes32_to_snark_field v input.ballot_nullifier
    commitment ←
        compute_proof_compatible_package_commitment snark.poseidon election candidates nullifier key
          c1 c2
    expected ← commitment_to_bytes32 commitment
    guard (text_eq (lower input.package_commitment) expected)
        (assertion "package commitment does not match ciphertext statement")
    envelope ← snark.decode_proof 22 input.ballot_validity_proof.proof
    let signals =
        election ∷ candidates ∷ nullifier ∷ commitment ∷ key.0 ∷ key.1 ∷ (flat c1 ++ flat c2)
    guard (naturals_eq envelope.public_signals signals)
        (assertion "proof public signals do not match package")
    hash ← hash_proof_compatible_ballot_public_signals v signals
    guard (text_eq (lower input.ballot_validity_proof.public_inputs_hash) hash)
        (assertion "proof public-input hash does not match package")
    check_subgroups key c1 c2

  -- the object that is returned
  abbrev pub compatible_normalized :
      ProofCompatibleVotePackage → CiphertextJson → ProofCompatibleVotePackage
  compatible_normalized input ciphertext = record {
    keys = compatible_package_keys;
    version = proof_compatible_vote_package_version;
    election_id = lower input.election_id;
    candidate_list_hash = lower input.candidate_list_hash;
    ballot_nullifier = lower input.ballot_nullifier;
    package_commitment = lower input.package_commitment;
    ciphertext = ciphertext;
    ballot_validity_proof = record {
      keys = proof_json_keys;
      system = proof_compatible_ballot_proof_system;
      proof = lower input.ballot_validity_proof.proof;
      public_inputs_hash = lower input.ballot_validity_proof.public_inputs_hash;
    };
  }

  unfoldable pub validate_proof_compatible_vote_package :
      Viem → Snark → ProofCompatibleVotePackage → Result ProofCompatibleVotePackage
  validate_proof_compatible_vote_package v snark input = do
    only_keys input.keys compatible_package_keys "proof-compatible vote package"
    guard (input.version == proof_compatible_vote_package_version) unlabelled
    assert_hex32 v input.election_id "electionId"
    assert_hex32 v input.candidate_list_hash "candidateListHash"
    assert_hex32 v input.ballot_nullifier "ballotNullifier"
    assert_hex32 v input.package_commitment "packageCommitment"
    ciphertext ← validate_ciphertext_json v "proof-compatible ciphertext" input.ciphertext
    check_proof_json v "proof-compatible ballot proof" proof_compatible_ballot_proof_system
        input.ballot_validity_proof
    check_compatible_statement v snark input ciphertext
    ok (compatible_normalized input ciphertext)

  unfoldable pub serialize_proof_compatible_vote_package :
      Viem → Snark → ProofCompatibleVotePackage → Result Text
  serialize_proof_compatible_vote_package v snark input = do
    validated ← validate_proof_compatible_vote_package v snark input
    ok (stringify (canonicalize v.locale_le (compatible_package_json validated)) ++ 10 ∷ [])

  unfoldable pub digest_proof_compatible_vote_package :
      Viem → Snark → ProofCompatibleVotePackage → Result Text
  digest_proof_compatible_vote_package v snark input = do
    canonical ← serialize_proof_compatible_vote_package v snark input
    hash_abi v
        (bytes32 (domain_hash v "SVB_VOTE_PACKAGE_V2") ∷ bytes (v.string_to_hex canonical) ∷ [])
