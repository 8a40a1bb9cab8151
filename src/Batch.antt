-- ===== src/Batch.antt =====
-- `computeBatchPublicInputsHash`, `buildBatchManifest` and `buildInclusionReceipt` of
-- packages/crypto/src/index.ts.
pub mod Built
pub mod Sorted
pub mod Receipts
pub mod Listed
pub mod Chain
pub mod Failure
use scalable_blockchain_voti.Prelude.{
  ℕ, zero, suc, ◌+◌, String, Bool, Option, none, some, List, [], ◌∷◌, map, length, ltb, get_elem?,
  if◌then◌else◌,
}
use scalable_blockchain_voti.Outcome.{
  Label, plain, at, Result, ok, err, guard, assertion, labelled, map_result, ◌>>=◌, ◌>>◌,
}
use scalable_blockchain_voti.Outcome.Stateful.{Stateful, and_then}
use scalable_blockchain_voti.Js.Texts.{Text, lower, text_eq, trim}
use scalable_blockchain_voti.Js.Numbers.{natural}
use scalable_blockchain_voti.Js.Sorting.{sort_by}
use scalable_blockchain_voti.Viem.{
  Viem, bytes32, bytes32_list, uint, assert_bytes32, domain_hash, hash_abi,
}
use scalable_blockchain_voti.Merkle.{MerkleProofStep, present, merkle_root, merkle_proof}
use scalable_blockchain_voti.Nullifiers.{NullifierAccumulator, root, add_many}
use scalable_blockchain_voti.Package.Validation.{VotePackage, validate_vote_package}
use scalable_blockchain_voti.Package.Digest.{
  StoredVotePackage, digest_vote_package, hash_package_leaf,
}

abbrev pub batch_manifest_version : ℕ
batch_manifest_version = 1

pub record BatchManifest : Type 0 where
  pub version : ℕ
  pub election_id : Text
  pub previous_nullifier_root : Text
  pub nullifier_root : Text
  pub cid_merkle_root : Text
  pub manifest_digest : Text
  pub batch_public_inputs_hash : Text
  pub batch_size : ℕ
  pub package_digests : List Text
  pub package_leaf_hashes : List Text
  pub ballot_nullifiers : List Text

pub record PackageInclusionReceipt : Type 0 where
  pub batch_manifest_digest : Text
  pub package_digest : Text
  pub leaf_hash : Text
  pub leaf_index : ℕ
  pub proof : List MerkleProofStep

-- `array.indexOf(x)`, `none` for -1
unfoldable pub index_of : Text → List Text → Option ℕ
index_of x [] = none
index_of x (y ∷ ys) =
    if text_eq y x then some 0 else elim (index_of x ys) [ none ↦ none | some i ↦ some (suc i) ]

module _ (v : Viem) where
  -- the `map` that checks and normalises an array of 32-byte values
  unfoldable pub normalize_all : String → ℕ → List Text → Result (List Text)
  normalize_all name index [] = ok []
  normalize_all name index (value ∷ values) = do
    assert_bytes32 v value (at name index)
    rest ← normalize_all name (index + 1) values
    ok (lower value ∷ rest)

  unfoldable pub compute_batch_public_inputs_hash :
      (election_id previous_nullifier_root nullifier_root cid_merkle_root manifest_digest : Text)
      → (package_digests ballot_nullifiers : List Text) → Result Text
  compute_batch_public_inputs_hash election_id previous_nullifier_root nullifier_root
        cid_merkle_root manifest_digest package_digests ballot_nullifiers =
      do
        assert_bytes32 v election_id (plain "electionId")
        assert_bytes32 v previous_nullifier_root (plain "previousNullifierRoot")
        assert_bytes32 v nullifier_root (plain "nullifierRoot")
        assert_bytes32 v cid_merkle_root (plain "cidMerkleRoot")
        assert_bytes32 v manifest_digest (plain "manifestDigest")
        digests ← normalize_all "packageDigests" 0 package_digests
        nullifiers ← normalize_all "ballotNullifiers" 0 ballot_nullifiers
        hash_abi v (
            bytes32 (domain_hash v "SVB_BATCH_PUBLIC_INPUTS_V1")
            ∷ bytes32 (lower election_id)
            ∷ bytes32 (lower previous_nullifier_root)
            ∷ bytes32 (lower nullifier_root)
            ∷ bytes32 (lower cid_merkle_root)
            ∷ bytes32 (lower manifest_digest)
            ∷ bytes32_list digests
            ∷ bytes32_list nullifiers
            ∷ [])

  unfoldable pub normalize_stored : StoredVotePackage → Result StoredVotePackage
  normalize_stored stored = do
    normalized ← validate_vote_package v stored.vote_package
    ok (record { content_id = trim stored.content_id; vote_package = normalized })

  -- the loop that compares every package's election
  unfoldable pub check_elections : Text → ℕ → List StoredVotePackage → Result (Unit {0})
  check_elections election_id index [] = ok tt
  check_elections election_id index (stored ∷ rest) = do
    guard (text_eq stored.vote_package.election_id election_id)
        (labelled (at "package" index) "electionId mismatch")
    check_elections election_id (index + 1) rest

  unfoldable pub with_digest : StoredVotePackage → Result (Text × StoredVotePackage)
  with_digest stored = do digest ← digest_vote_package v stored.vote_package; ok (digest, stored)

  -- `sort` calls its comparator, and so the digest, only where there are two packages or more
  unfoldable pub sort_by_digest : List StoredVotePackage → Result (List StoredVotePackage)
  sort_by_digest [] = ok []
  sort_by_digest (stored ∷ []) = ok (stored ∷ [])
  sort_by_digest (first ∷ second ∷ rest) = do
    keyed ← map_result with_digest (first ∷ second ∷ rest)
    ok (map (λ e. e.1) (sort_by (λ a b. v.locale_le a.0 b.0) keyed))

  -- up to the call of `addMany`; the accumulator is read and not changed
  unfoldable pub prepare_batch :
      Text → Text → List StoredVotePackage → NullifierAccumulator → Result (List StoredVotePackage)
  prepare_batch election_id previous_nullifier_root stored_packages accumulator = do
    assert_bytes32 v election_id (plain "electionId")
    assert_bytes32 v previous_nullifier_root (plain "previousNullifierRoot")
    guard (ltb 0 (length stored_packages)) (assertion "batch must include at least one package")
    current ← root v accumulator
    guard (text_eq current (lower previous_nullifier_root))
        (assertion "previousNullifierRoot does not match accumulator state")
    normalized ← map_result normalize_stored stored_packages
    check_elections (lower election_id) 0 normalized
    sort_by_digest normalized

  -- from the call of `addMany` on
  unfoldable pub seal_batch :
      Text → Text → List StoredVotePackage → NullifierAccumulator → Result BatchManifest
  seal_batch election_id previous_nullifier_root sorted accumulator = do
    let nullifiers = map (λ s. s.vote_package.ballot_nullifier) sorted
    digests ← map_result (λ s. digest_vote_package v s.vote_package) sorted
    leaves ← map_result (hash_package_leaf v) sorted
    cid_root ← merkle_root v leaves
    nullifier_root ← root v accumulator
    manifest ← hash_abi v (
        bytes32 (domain_hash v "SVB_BATCH_MANIFEST_V1")
        ∷ uint 8 batch_manifest_version
        ∷ bytes32 (lower election_id)
        ∷ bytes32 (lower previous_nullifier_root)
        ∷ bytes32 nullifier_root
        ∷ bytes32 cid_root
        ∷ uint 64 (length sorted)
        ∷ bytes32_list digests
        ∷ bytes32_list nullifiers
        ∷ [])
    inputs ←
        compute_batch_public_inputs_hash (lower election_id) (lower previous_nullifier_root)
          nullifier_root cid_root manifest digests nullifiers
    ok (record {
      version = batch_manifest_version;
      election_id = lower election_id;
      previous_nullifier_root = lower previous_nullifier_root;
      nullifier_root = nullifier_root;
      cid_merkle_root = cid_root;
      manifest_digest = manifest;
      batch_public_inputs_hash = inputs;
      batch_size = length sorted;
      package_digests = digests;
      package_leaf_hashes = leaves;
      ballot_nullifiers = nullifiers;
    })

  -- a throw after `addMany` has begun leaves the accumulator changed
  unfoldable pub build_batch_manifest :
      Text → Text → List StoredVotePackage → Stateful NullifierAccumulator BatchManifest
  build_batch_manifest election_id previous_nullifier_root stored_packages accumulator =
      and_then
        (prepare_batch election_id previous_nullifier_root stored_packages accumulator, accumulator)
        λ sorted before.
          and_then (add_many v (map (λ s. s.vote_package.ballot_nullifier) sorted) before)
            λ _ after. (seal_batch election_id previous_nullifier_root sorted after, after)

  unfoldable pub found_at : Option ℕ → Result ℕ
  found_at none = err (assertion "package digest is not in manifest")
  found_at (some i) = ok i

  unfoldable pub build_inclusion_receipt : BatchManifest → Text → Result PackageInclusionReceipt
  build_inclusion_receipt manifest package_digest = do
    leaf_index ← found_at (index_of (lower package_digest) manifest.package_digests)
    proof ← merkle_proof v manifest.package_leaf_hashes (natural leaf_index)
    leaf_hash ← present (get_elem? manifest.package_leaf_hashes leaf_index)
    ok (record {
      batch_manifest_digest = manifest.manifest_digest;
      package_digest = lower package_digest;
      leaf_hash = leaf_hash;
      leaf_index = leaf_index;
      proof = proof;
    })
