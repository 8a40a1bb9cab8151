-- ===== src/Compatible/Batches.antt =====
-- `buildProofCompatibleBatchManifest`, `buildProofCompatibleInclusionReceipt` and
-- `computeProofCompatibleEncryptedTallyHash` of packages/crypto/src/proofCompatiblePipeline.ts.
use scalable_blockchain_voti.Prelude.{ℕ, List, [], ◌∷◌, map, length, ltb, get_elem?, ◌==◌}
use scalable_blockchain_voti.Outcome.{
  Result, ok, unlabelled, assertion, guard, map_result, ◌>>=◌, ◌>>◌,
}
use scalable_blockchain_voti.Outcome.Stateful.{Stateful, and_then}
use scalable_blockchain_voti.Js.Texts.{Text, lower, text_eq, trim}
use scalable_blockchain_voti.Js.Numbers.{natural}
use scalable_blockchain_voti.Js.Sorting.{sort_by}
use scalable_blockchain_voti.Viem.{Viem, bytes32, bytes32_list, uint, domain_hash, hash_abi}
use scalable_blockchain_voti.Merkle.{present, merkle_root, merkle_proof}
use scalable_blockchain_voti.Nullifiers.{NullifierAccumulator, Others, root, add_many}
use scalable_blockchain_voti.Package.Digest.{digest_content_id}
use scalable_blockchain_voti.Batch.{PackageInclusionReceipt, index_of, found_at}
use scalable_blockchain_voti.Jub.{
  BabyJub, CiphertextJson, assert_hex32, aggregate_proof_compatible_ciphertexts,
  digest_proof_compatible_ciphertext,
}
use scalable_blockchain_voti.Compatible.{
  Snark, ProofCompatibleVotePackage, validate_proof_compatible_vote_package,
  digest_proof_compatible_vote_package,
}

abbrev pub proof_compatible_batch_manifest_version : ℕ
proof_compatible_batch_manifest_version = 2

pub record StoredProofCompatibleVotePackage : Type 0 where
  pub content_id : Text
  pub vote_package : ProofCompatibleVotePackage

-- an entry of `validated`
pub record CompatibleEntry : Type 0 where
  pub content_id : Text
  pub vote_package : ProofCompatibleVotePackage
  pub digest : Text

pub record ProofCompatibleBatchManifest : Type 0 where
  pub version : ℕ
  pub election_id : Text
  pub previous_nullifier_root : Text
  pub nullifier_root : Text
  pub cid_merkle_root : Text
  pub manifest_digest : Text
  pub batch_public_inputs_hash : Text
  pub batch_size : ℕ
  pub aggregate_ciphertext : CiphertextJson
  pub aggregate_ciphertext_digest : Text
  pub package_digests : List Text
  pub package_leaf_hashes : List Text
  pub ballot_nullifiers : List Text

abbrev pub compatible_nullifiers : List CompatibleEntry → List Text
compatible_nullifiers = map (λ entry. entry.vote_package.ballot_nullifier)

-- the loop that compares every package's election
unfoldable pub check_compatible_elections : Text → List CompatibleEntry → Result (Unit {0})
check_compatible_elections election_id [] = ok tt
check_compatible_elections election_id (entry ∷ rest) = do
  guard (text_eq entry.vote_package.election_id election_id) unlabelled
  check_compatible_elections election_id rest

module _ (v : Viem) where
  unfoldable pub compatible_leaf : CompatibleEntry → Result Text
  compatible_leaf entry = do
    content ← digest_content_id v entry.content_id
    hash_abi v (
        bytes32 (domain_hash v "SVB_PACKAGE_LEAF_V2")
        ∷ bytes32 content
        ∷ bytes32 entry.digest
        ∷ bytes32 entry.vote_package.ballot_nullifier
        ∷ bytes32 entry.vote_package.package_commitment
        ∷ [])

  unfoldable pub compute_proof_compatible_batch_public_inputs_hash :
      (election_id previous_nullifier_root nullifier_root cid_merkle_root manifest_digest
        aggregate_ciphertext_digest : Text)
      → (package_digests ballot_nullifiers : List Text) → Result Text
  compute_proof_compatible_batch_public_inputs_hash election_id previous_nullifier_root
        nullifier_root cid_merkle_root manifest_digest aggregate_ciphertext_digest package_digests
        ballot_nullifiers =
      hash_abi v (
        bytes32 (domain_hash v "SVB_BATCH_PUBLIC_INPUTS_V2")
        ∷ bytes32 election_id
        ∷ bytes32 previous_nullifier_root
        ∷ bytes32 nullifier_root
        ∷ bytes32 cid_merkle_root
        ∷ bytes32 manifest_digest
        ∷ bytes32 aggregate_ciphertext_digest
        ∷ bytes32_list package_digests
        ∷ bytes32_list ballot_nullifiers
        ∷ [])

  unfoldable pub compute_proof_compatible_encrypted_tally_hash :
      (election_id candidate_list_hash : Text)
      → (accepted_batch_manifest_digests accepted_batch_public_inputs_hashes : List Text)
      → CiphertextJson
      → Result Text
  compute_proof_compatible_encrypted_tally_hash election_id candidate_list_hash digests hashes
        aggregate_ciphertext =
      do
        assert_hex32 v election_id "electionId"
        assert_hex32 v candidate_list_hash "candidateListHash"
        guard (length digests == length hashes) unlabelled
        guard (ltb 0 (length digests)) unlabelled
        digest ← digest_proof_compatible_ciphertext v aggregate_ciphertext
        hash_abi v (
            bytes32 (domain_hash v "SVB_ENCRYPTED_TALLY_PUBLIC_INPUTS_V2")
            ∷ bytes32 (lower election_id)
            ∷ bytes32 (lower candidate_list_hash)
            ∷ bytes32_list (map lower digests)
            ∷ bytes32_list (map lower hashes)
            ∷ bytes32 digest
            ∷ [])

  module _ (snark : Snark) {F : Type 0} (jub : BabyJub F) where
    unfoldable pub compatible_entry : StoredProofCompatibleVotePackage → Result CompatibleEntry
    compatible_entry stored = do
      validated ← validate_proof_compatible_vote_package jub v snark stored.vote_package
      digest ← digest_proof_compatible_vote_package jub v snark stored.vote_package
      ok (record { content_id = trim stored.content_id; vote_package = validated; digest = digest })

    -- up to the call of `addMany`
    unfoldable pub prepare_compatible_batch :
        Text
        → Text
        → List StoredProofCompatibleVotePackage
        → NullifierAccumulator
        → Result (List CompatibleEntry)
    prepare_compatible_batch election_id previous_nullifier_root stored_packages accumulator = do
      assert_hex32 v election_id "electionId"
      assert_hex32 v previous_nullifier_root "previousNullifierRoot"
      guard (ltb 0 (length stored_packages)) (assertion "batch cannot be empty")
      current ← root v accumulator
      guard (text_eq current (lower previous_nullifier_root)) unlabelled
      validated ← map_result compatible_entry stored_packages
      check_compatible_elections (lower election_id) validated
      ok (sort_by (λ left right. v.locale_le left.digest right.digest) validated)

    -- from the call of `addMany` on
    unfoldable pub seal_compatible_batch :
        Text
        → Text
        → List CompatibleEntry
        → NullifierAccumulator
        → Result ProofCompatibleBatchManifest
    seal_compatible_batch election_id previous_nullifier_root validated accumulator = do
      let nullifiers = compatible_nullifiers validated
      let digests = map (λ entry. entry.digest) validated
      leaves ← map_result compatible_leaf validated
      aggregate ←
          aggregate_proof_compatible_ciphertexts jub
            (map (λ entry. entry.vote_package.ciphertext) validated)
      aggregate_digest ← digest_proof_compatible_ciphertext v aggregate
      cid_root ← merkle_root v leaves
      nullifier_root ← root v accumulator
      manifest ← hash_abi v (
          bytes32 (domain_hash v "SVB_BATCH_MANIFEST_V2")
          ∷ uint 8 proof_compatible_batch_manifest_version
          ∷ bytes32 (lower election_id)
          ∷ bytes32 (lower previous_nullifier_root)
          ∷ bytes32 nullifier_root
          ∷ bytes32 cid_root
          ∷ uint 64 (length validated)
          ∷ bytes32 aggregate_digest
          ∷ bytes32_list digests
          ∷ bytes32_list nullifiers
          ∷ [])
      inputs ←
          compute_proof_compatible_batch_public_inputs_hash (lower election_id)
            (lower previous_nullifier_root) nullifier_root cid_root manifest aggregate_digest
            digests nullifiers
      ok (record {
        version = proof_compatible_batch_manifest_version;
        election_id = lower election_id;
        previous_nullifier_root = lower previous_nullifier_root;
        nullifier_root = nullifier_root;
        cid_merkle_root = cid_root;
        manifest_digest = manifest;
        batch_public_inputs_hash = inputs;
        batch_size = length validated;
        aggregate_ciphertext = aggregate;
        aggregate_ciphertext_digest = aggregate_digest;
        package_digests = digests;
        package_leaf_hashes = leaves;
        ballot_nullifiers = nullifiers;
      })

    -- `others` is what other callers do to the accumulator at the two `await`s
    unfoldable pub build_proof_compatible_batch_manifest :
        Others
        → Text
        → Text
        → List StoredProofCompatibleVotePackage
        → Stateful NullifierAccumulator ProofCompatibleBatchManifest
    build_proof_compatible_batch_manifest others election_id previous stored_packages accumulator =
        and_then
          (
            prepare_compatible_batch election_id previous stored_packages accumulator,
            others.validating accumulator,
          )
          λ validated current.
            and_then (add_many v (compatible_nullifiers validated) current) λ _ added.
              let later = others.summing added in
              (seal_compatible_batch election_id previous validated later, later)

    unfoldable pub build_proof_compatible_inclusion_receipt :
        ProofCompatibleBatchManifest → ProofCompatibleVotePackage → Result PackageInclusionReceipt
    build_proof_compatible_inclusion_receipt manifest vote_package = do
      package_digest ← digest_proof_compatible_vote_package jub v snark vote_package
      leaf_index ← found_at v (index_of package_digest manifest.package_digests)
      leaf_hash ← present (get_elem? manifest.package_leaf_hashes leaf_index)
      proof ← merkle_proof v manifest.package_leaf_hashes (natural leaf_index)
      ok (record {
        batch_manifest_digest = manifest.manifest_digest;
        package_digest = package_digest;
        leaf_hash = leaf_hash;
        leaf_index = leaf_index;
        proof = proof;
      })
