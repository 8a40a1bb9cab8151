-- ===== src/Eligible/Batches.antt =====
-- `buildEligibleBatchManifest`, `buildEligibleInclusionReceipt` and
-- `computeEligibleEncryptedTallyHash` of packages/crypto/src/eligiblePipeline.ts.
use scalable_blockchain_voti.Prelude.{ℕ, List, [], ◌∷◌, map, length, ltb, get_elem?, ◌==◌}
use scalable_blockchain_voti.Outcome.{
  Result, ok, err, unlabelled, type_error, assertion, guard, map_result, ◌>>=◌, ◌>>◌,
}
use scalable_blockchain_voti.Outcome.Stateful.{Stateful, and_then}
use scalable_blockchain_voti.Js.Texts.{Text, text, lower, text_eq, trim}
use scalable_blockchain_voti.Js.Numbers.{natural}
use scalable_blockchain_voti.Js.Sorting.{sort_by}
use scalable_blockchain_voti.Viem.{Viem, bytes32, bytes32_list, uint, domain_hash, hash_abi}
use scalable_blockchain_voti.Merkle.{present, merkle_root, merkle_proof}
use scalable_blockchain_voti.Nullifiers.{NullifierAccumulator, Others, root, add_many}
use scalable_blockchain_voti.Package.Digest.{digest_content_id}
use scalable_blockchain_voti.Batch.{PackageInclusionReceipt, index_of, found_at}
use scalable_blockchain_voti.Jub.{
  BabyJub, CiphertextJson, assert_hex32, aggregate_proof_compatible_ciphertexts,
  digest_proof_compatible_ciphertext,
}
use scalable_blockchain_voti.Compatible.{Snark}
use scalable_blockchain_voti.Eligible.{
  EligibleVotePackage, assert_canonical_field, validate_eligible_vote_package,
  digest_eligible_vote_package, verify_eligible_vote_package_proof,
}

abbrev pub eligible_batch_manifest_version : ℕ
eligible_batch_manifest_version = 3

abbrev pub eligible_batch_verification_mode : Text
eligible_batch_verification_mode = text "off-chain-real-proof-validation-v1"

pub record StoredEligibleVotePackage : Type 0 where
  pub content_id : Text
  pub vote_package : EligibleVotePackage

-- an entry of `validated`
pub record EligibleEntry : Type 0 where
  pub content_id : Text
  pub vote_package : EligibleVotePackage
  pub digest : Text

pub record EligibleBatchManifest : Type 0 where
  pub version : ℕ
  pub verification_mode : Text
  pub election_id : Text
  pub candidate_list_hash : Text
  pub eligibility_root : Text
  pub election_public_key_hash : Text
  pub previous_nullifier_root : Text
  pub nullifier_root : Text
  pub cid_merkle_root : Text
  pub manifest_digest : Text
  pub batch_public_inputs_hash : Text
  pub batch_size : ℕ
  pub aggregate_ciphertext : CiphertextJson
  pub aggregate_ciphertext_digest : Text
  pub package_digests : List Text
  pub package_leaf_hashes : List Text
  pub ballot_nullifiers : List Text
  pub ballot_proof_public_inputs_hashes : List Text

abbrev pub eligible_nullifiers : List EligibleEntry → List Text
eligible_nullifiers = map (λ entry. entry.vote_package.ballot_nullifier)

abbrev pub proof_input_hashes : List EligibleEntry → List Text
proof_input_hashes = map (λ entry. entry.vote_package.ballot_validity_proof.public_inputs_hash)

-- the first of the entries as they came in, with what was sorted
pub record EligiblePrepared : Type 0 where
  pub first : EligibleVotePackage
  pub sorted : List EligibleEntry

module _ (v : Viem) where
  unfoldable pub eligible_leaf : EligibleEntry → Result Text
  eligible_leaf entry = do
    content ← digest_content_id v entry.content_id
    hash_abi v (
        bytes32 (domain_hash v "SVB_ELIGIBLE_PACKAGE_LEAF_V3")
        ∷ bytes32 content
        ∷ bytes32 entry.digest
        ∷ bytes32 entry.vote_package.eligibility_root
        ∷ bytes32 entry.vote_package.ballot_nullifier
        ∷ bytes32 entry.vote_package.package_commitment
        ∷ bytes32 entry.vote_package.ballot_validity_proof.public_inputs_hash
        ∷ [])

  unfoldable pub compute_eligible_batch_public_inputs_hash :
      (election_id candidate_list_hash eligibility_root election_public_key_hash
        previous_nullifier_root nullifier_root cid_merkle_root manifest_digest
        aggregate_ciphertext_digest : Text)
      → (package_digests ballot_nullifiers ballot_proof_public_inputs_hashes : List Text)
      → Result Text
  compute_eligible_batch_public_inputs_hash election_id candidate_list_hash eligibility_root
        election_public_key_hash previous_nullifier_root nullifier_root cid_merkle_root
        manifest_digest aggregate_ciphertext_digest package_digests ballot_nullifiers
        ballot_proof_public_inputs_hashes =
      hash_abi v (
        bytes32 (domain_hash v "SVB_ELIGIBLE_BATCH_PUBLIC_INPUTS_V3")
        ∷ bytes32 election_id
        ∷ bytes32 candidate_list_hash
        ∷ bytes32 eligibility_root
        ∷ bytes32 election_public_key_hash
        ∷ bytes32 previous_nullifier_root
        ∷ bytes32 nullifier_root
        ∷ bytes32 cid_merkle_root
        ∷ bytes32 manifest_digest
        ∷ bytes32 aggregate_ciphertext_digest
        ∷ bytes32_list package_digests
        ∷ bytes32_list ballot_nullifiers
        ∷ bytes32_list ballot_proof_public_inputs_hashes
        ∷ [])

  unfoldable pub compute_eligible_encrypted_tally_hash :
      (election_id candidate_list_hash eligibility_root : Text)
      → (accepted_batch_manifest_digests accepted_batch_public_inputs_hashes : List Text)
      → CiphertextJson
      → Result Text
  compute_eligible_encrypted_tally_hash election_id candidate_list_hash eligibility_root digests
        hashes aggregate_ciphertext =
      do
        assert_hex32 v election_id "electionId"
        assert_hex32 v candidate_list_hash "candidateListHash"
        assert_hex32 v eligibility_root "eligibilityRoot"
        canonical ← assert_canonical_field eligibility_root "eligibilityRoot"
        guard (length digests == length hashes) unlabelled
        guard (ltb 0 (length digests)) unlabelled
        digest ← digest_proof_compatible_ciphertext v aggregate_ciphertext
        hash_abi v (
            bytes32 (domain_hash v "SVB_ELIGIBLE_ENCRYPTED_TALLY_INPUTS_V3")
            ∷ bytes32 (lower election_id)
            ∷ bytes32 (lower candidate_list_hash)
            ∷ bytes32 (lower eligibility_root)
            ∷ bytes32_list (map lower digests)
            ∷ bytes32_list (map lower hashes)
            ∷ bytes32 digest
            ∷ [])

  module _ (snark : Snark) {F : Type 0} (jub : BabyJub F) where
    unfoldable pub eligible_entry : StoredEligibleVotePackage → Result EligibleEntry
    eligible_entry stored = do
      validated ← validate_eligible_vote_package jub v snark stored.vote_package
      digest ← digest_eligible_vote_package jub v snark stored.vote_package
      ok (record { content_id = trim stored.content_id; vote_package = validated; digest = digest })

    -- the loop that compares every package with the first and verifies its proof
    unfoldable pub check_eligible_entries :
        (election_id eligibility_root verification_key : Text)
        → EligibleVotePackage
        → List EligibleEntry
        → Result (Unit {0})
    check_eligible_entries election_id eligibility_root verification_key first [] = ok tt
    check_eligible_entries election_id eligibility_root verification_key first (entry ∷ rest) = do
      guard (ltb 0 (length entry.content_id)) (assertion "content ID cannot be empty")
      guard (text_eq entry.vote_package.election_id election_id) (assertion "election mismatch")
      guard (text_eq entry.vote_package.eligibility_root eligibility_root)
          (assertion "eligibility root mismatch")
      guard (text_eq entry.vote_package.candidate_list_hash first.candidate_list_hash)
          (assertion "candidate list mismatch")
      guard
          (text_eq entry.vote_package.ciphertext.election_public_key_hash
            first.ciphertext.election_public_key_hash)
          (assertion "election encryption key mismatch")
      verified ← verify_eligible_vote_package_proof jub v snark entry.vote_package verification_key
      guard verified (assertion "eligible ballot Groth16 proof rejected")
      check_eligible_entries election_id eligibility_root verification_key first rest

    -- `validated[0]!.package`, the checks and the sorting
    unfoldable pub sort_eligible :
        (election_id eligibility_root verification_key : Text)
        → List EligibleEntry
        → Result EligiblePrepared
    sort_eligible election_id eligibility_root verification_key [] = err type_error
    sort_eligible election_id eligibility_root verification_key (entry ∷ entries) = do
      check_eligible_entries election_id eligibility_root verification_key entry.vote_package
          (entry ∷ entries)
      ok (record {
        first = entry.vote_package;
        sorted = sort_by (λ left right. v.locale_le left.digest right.digest) (entry ∷ entries);
      })

    -- up to the call of `addMany`
    unfoldable pub prepare_eligible_batch :
        (election_id eligibility_root previous_nullifier_root verification_key : Text)
        → List StoredEligibleVotePackage
        → NullifierAccumulator
        → Result EligiblePrepared
    prepare_eligible_batch election_id eligibility_root previous_nullifier_root verification_key
          stored_packages accumulator =
        do
          assert_hex32 v election_id "electionId"
          assert_hex32 v eligibility_root "eligibilityRoot"
          canonical ← assert_canonical_field eligibility_root "eligibilityRoot"
          assert_hex32 v previous_nullifier_root "previousNullifierRoot"
          guard (ltb 0 (length stored_packages)) (assertion "batch cannot be empty")
          current ← root v accumulator
          guard (text_eq current (lower previous_nullifier_root)) unlabelled
          validated ← map_result eligible_entry stored_packages
          sort_eligible (lower election_id) (lower eligibility_root) verification_key validated

    -- from the call of `addMany` on
    unfoldable pub seal_eligible_batch :
        (election_id eligibility_root previous_nullifier_root : Text)
        → EligiblePrepared
        → NullifierAccumulator
        → Result EligibleBatchManifest
    seal_eligible_batch election_id eligibility_root previous_nullifier_root prepared accumulator =
        do
          let validated = prepared.sorted
          let candidate_list = prepared.first.candidate_list_hash
          let key_hash = prepared.first.ciphertext.election_public_key_hash
          let nullifiers = eligible_nullifiers validated
          let digests = map (λ entry. entry.digest) validated
          let proof_hashes = proof_input_hashes validated
          leaves ← map_result eligible_leaf validated
          aggregate ←
              aggregate_proof_compatible_ciphertexts jub
                (map (λ entry. entry.vote_package.ciphertext) validated)
          aggregate_digest ← digest_proof_compatible_ciphertext v aggregate
          cid_root ← merkle_root v leaves
          nullifier_root ← root v accumulator
          manifest ← hash_abi v (
              bytes32 (domain_hash v "SVB_ELIGIBLE_BATCH_MANIFEST_V3")
              ∷ uint 8 eligible_batch_manifest_version
              ∷ bytes32 (v.keccak256 (v.string_to_hex eligible_batch_verification_mode))
              ∷ bytes32 (lower election_id)
              ∷ bytes32 candidate_list
              ∷ bytes32 (lower eligibility_root)
              ∷ bytes32 key_hash
              ∷ bytes32 (lower previous_nullifier_root)
              ∷ bytes32 nullifier_root
              ∷ bytes32 cid_root
              ∷ uint 64 (length validated)
              ∷ bytes32 aggregate_digest
              ∷ bytes32_list digests
              ∷ bytes32_list nullifiers
              ∷ bytes32_list proof_hashes
              ∷ [])
          inputs ←
              compute_eligible_batch_public_inputs_hash (lower election_id) candidate_list
                (lower eligibility_root) key_hash (lower previous_nullifier_root) nullifier_root
                cid_root manifest aggregate_digest digests nullifiers proof_hashes
          ok (record {
            version = eligible_batch_manifest_version;
            verification_mode = eligible_batch_verification_mode;
            election_id = lower election_id;
            candidate_list_hash = candidate_list;
            eligibility_root = lower eligibility_root;
            election_public_key_hash = key_hash;
            previous_nullifier_root = lower previous_nullifier_root;
            nullifier_root = nullifier_root;
            cid_merkle_root = cid_root;
            manifest_digest = manifest;
            batch_public_inputs_hash = inputs;
            batch_size = length validated;
            aggregate_ciphertext = aggregate;
            aggregate_ciphertext_digest = aggregate_digest;
            package_digests = digests;
            package_leaf_hashes = leaves;
            ballot_nullifiers = nullifiers;
            ballot_proof_public_inputs_hashes = proof_hashes;
          })

    -- `others` is what other callers do to the accumulator at the `await`s
    unfoldable pub build_eligible_batch_manifest :
        Others
        → (election_id eligibility_root previous_nullifier_root verification_key : Text)
        → List StoredEligibleVotePackage
        → Stateful NullifierAccumulator EligibleBatchManifest
    build_eligible_batch_manifest others election_id eligibility_root previous verification_key
          stored_packages accumulator =
        and_then
          (
            prepare_eligible_batch election_id eligibility_root previous verification_key
                stored_packages accumulator,
            others.validating accumulator,
          )
          λ prepared current.
            and_then (add_many v (eligible_nullifiers prepared.sorted) current) λ _ added.
              let later = others.summing added in
              (seal_eligible_batch election_id eligibility_root previous prepared later, later)

    unfoldable pub build_eligible_inclusion_receipt :
        EligibleBatchManifest → EligibleVotePackage → Result PackageInclusionReceipt
    build_eligible_inclusion_receipt manifest vote_package = do
      package_digest ← digest_eligible_vote_package jub v snark vote_package
      leaf_index ← found_at v (index_of package_digest manifest.package_digests)
      leaf_hash ← present (get_elem? manifest.package_leaf_hashes leaf_index)
      proof ← merkle_proof v manifest.package_leaf_hashes (natural leaf_index)
      ok (record {
        batch_manifest_digest = manifest.manifest_digest;
        package_digest = package_digest;
        leaf_hash = leaf_hash;
        leaf_index = leaf_index;
        proof = proof;
      })
