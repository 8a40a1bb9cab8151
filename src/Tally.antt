-- ===== src/Tally.antt =====
-- The hashes of packages/crypto/src/index.ts that a tally and a registration are bound to.
pub mod Shares
pub mod Binding
use scalable_blockchain_voti.Prelude.{ℕ, ◌+◌, List, [], ◌∷◌, map, length, ltb, leb, ◌==◌}
use scalable_blockchain_voti.Outcome.{
  plain, at, assertion, labelled, Result, ok, guard, ◌>>=◌, ◌>>◌,
}
use scalable_blockchain_voti.Js.Texts.{Text, lower, text_eq}
use scalable_blockchain_voti.Js.Numbers.{Number, is_integer, at_least, to_natural}
use scalable_blockchain_voti.Viem.{
  Viem, bytes32, address, bytes, bytes32_list, uint_list, assert_bytes32, assert_address,
  domain_hash, hash_abi,
}
use scalable_blockchain_voti.Package.Points.{assert_compressed_point}
use scalable_blockchain_voti.Package.Ciphertext.{
  BallotCiphertext, validate_ciphertext, digest_ballot_ciphertext,
}
use scalable_blockchain_voti.Batch.{normalize_all}

-- the parameters of `computeTallyResultHash`
pub record TallyResult : Type 0 where
  pub election_id : Text
  pub candidate_list_hash : Text
  pub election_public_key_hash : Text
  pub aggregate_ciphertext : BallotCiphertext
  pub tally_counts : List Number
  pub decryption_share_digests : List Text

-- the parameters of `computeTallyProofPublicInputsHash`
pub record TallyProofInputs : Type 0 where
  pub tally : TallyResult
  pub accepted_batch_manifest_digests : List Text
  pub accepted_batch_public_inputs_hashes : List Text
  pub result_hash : Text

-- the `map` that checks the counts
unfoldable pub check_counts : ℕ → List Number → Result (List ℕ)
check_counts index [] = ok []
check_counts index (count ∷ counts) = do
  guard (is_integer count) (labelled (at "tallyCounts" index) "must be an integer")
  guard (at_least 0 count) (labelled (at "tallyCounts" index) "cannot be negative")
  guard (leb (to_natural count) 4294967295) (labelled (at "tallyCounts" index) "exceeds uint32")
  rest ← check_counts (index + 1) counts
  ok (to_natural count ∷ rest)

module _ (v : Viem) where
  unfoldable pub hash_election_public_key : Text → Result Text
  hash_election_public_key public_key = do
    assert_compressed_point v public_key (plain "electionPublicKey")
    hash_abi v (bytes32 (domain_hash v "SVB_ELECTION_PUBLIC_KEY_V1") ∷ bytes public_key ∷ [])

  unfoldable pub compute_registration_public_inputs_hash : Text → Text → Text → Result Text
  compute_registration_public_inputs_hash election_id identity_nullifier voting_key = do
    assert_bytes32 v election_id (plain "electionId")
    assert_bytes32 v identity_nullifier (plain "identityNullifier")
    assert_address v voting_key (plain "votingKey")
    hash_abi v (
        bytes32 (domain_hash v "SVB_REGISTRATION_PUBLIC_INPUTS_V1")
        ∷ bytes32 (lower election_id)
        ∷ bytes32 (lower identity_nullifier)
        ∷ address (lower voting_key)
        ∷ [])

  unfoldable pub compute_tally_result_hash : TallyResult → Result Text
  compute_tally_result_hash t = do
    assert_bytes32 v t.election_id (plain "electionId")
    assert_bytes32 v t.candidate_list_hash (plain "candidateListHash")
    assert_bytes32 v t.election_public_key_hash (plain "electionPublicKeyHash")
    aggregate ← validate_ciphertext v t.aggregate_ciphertext
    guard (text_eq aggregate.election_public_key_hash (lower t.election_public_key_hash))
        (assertion "aggregate ciphertext key does not match election public key hash")
    guard (ltb 1 (length t.tally_counts))
        (assertion "tallyCounts must include at least two candidates")
    counts ← check_counts 0 t.tally_counts
    digests ← normalize_all v "decryptionShareDigests" 0 t.decryption_share_digests
    guard (ltb 0 (length digests)) (assertion "at least one decryption share digest is required")
    digest ← digest_ballot_ciphertext v aggregate
    hash_abi v (
        bytes32 (domain_hash v "SVB_TALLY_RESULT_V1")
        ∷ bytes32 (lower t.election_id)
        ∷ bytes32 (lower t.candidate_list_hash)
        ∷ bytes32 (lower t.election_public_key_hash)
        ∷ bytes32 digest
        ∷ uint_list 32 counts
        ∷ bytes32_list digests
        ∷ [])

  unfoldable pub compute_tally_proof_public_inputs_hash : TallyProofInputs → Result Text
  compute_tally_proof_public_inputs_hash p = do
    assert_bytes32 v p.tally.election_id (plain "electionId")
    assert_bytes32 v p.tally.candidate_list_hash (plain "candidateListHash")
    assert_bytes32 v p.tally.election_public_key_hash (plain "electionPublicKeyHash")
    assert_bytes32 v p.result_hash (plain "resultHash")
    manifests ← normalize_all v "acceptedBatchManifestDigests" 0 p.accepted_batch_manifest_digests
    inputs ←
        normalize_all v "acceptedBatchPublicInputsHashes" 0 p.accepted_batch_public_inputs_hashes
    guard (length manifests == length inputs)
        (assertion "accepted batch digest arrays must have the same length")
    guard (ltb 0 (length manifests)) (assertion "at least one accepted batch is required")
    result_hash ← compute_tally_result_hash p.tally
    guard (text_eq result_hash (lower p.result_hash))
        (assertion "resultHash does not match tally result fields")
    digest ← digest_ballot_ciphertext v p.tally.aggregate_ciphertext
    hash_abi v (
        bytes32 (domain_hash v "SVB_TALLY_PROOF_PUBLIC_INPUTS_V1")
        ∷ bytes32 (lower p.tally.election_id)
        ∷ bytes32 (lower p.tally.candidate_list_hash)
        ∷ bytes32 (lower p.tally.election_public_key_hash)
        ∷ bytes32_list manifests
        ∷ bytes32_list inputs
        ∷ bytes32 digest
        ∷ uint_list 32 (map to_natural p.tally.tally_counts)
        ∷ bytes32_list (map lower p.tally.decryption_share_digests)
        ∷ bytes32 (lower p.result_hash)
        ∷ [])

  unfoldable pub compute_encrypted_tally_public_inputs_hash :
      (election_id candidate_list_hash election_public_key_hash : Text)
      → List Text
      → BallotCiphertext
      → Result Text
  compute_encrypted_tally_public_inputs_hash election_id candidate_list_hash
        election_public_key_hash accepted_batch_public_inputs_hashes aggregate_ciphertext =
      do
        assert_bytes32 v election_id (plain "electionId")
        assert_bytes32 v candidate_list_hash (plain "candidateListHash")
        assert_bytes32 v election_public_key_hash (plain "electionPublicKeyHash")
        inputs ←
            normalize_all v "acceptedBatchPublicInputsHashes" 0 accepted_batch_public_inputs_hashes
        aggregate ← validate_ciphertext v aggregate_ciphertext
        guard (text_eq aggregate.election_public_key_hash (lower election_public_key_hash))
            (assertion "aggregate ciphertext key does not match election public key hash")
        digest ← digest_ballot_ciphertext v aggregate
        hash_abi v (
            bytes32 (domain_hash v "SVB_ENCRYPTED_TALLY_PUBLIC_INPUTS_V1")
            ∷ bytes32 (lower election_id)
            ∷ bytes32 (lower candidate_list_hash)
            ∷ bytes32 (lower election_public_key_hash)
            ∷ bytes32_list inputs
            ∷ bytes32 digest
            ∷ [])
