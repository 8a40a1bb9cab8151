-- ===== src/Compatible/Accumulated.antt =====
-- What `buildProofCompatibleBatchManifest` and `buildProofCompatibleInclusionReceipt` promise.
use scalable_blockchain_voti.Prelude.{
  ℕ, ◌≡◌, refl, sym, ap, ◌∙◌, true, some, List, map, ◌++◌, get_elem?, subst,
}
use scalable_blockchain_voti.Outcome.{ok, map_result, >>=-eq-ok, >>-eq-ok, then-eq-ok, ok_inj}
use scalable_blockchain_voti.Outcome.Mapping.{map_result_at}
use scalable_blockchain_voti.Js.Texts.{Text, lower, text_eq_iff}
use scalable_blockchain_voti.Js.Numbers.{natural}
use scalable_blockchain_voti.Js.Sets.{member, member_of_get_elem?}
use scalable_blockchain_voti.Js.Sorting.{sort_by}
use scalable_blockchain_voti.Js.Sorting.Elements.{member-map-sort_by}
use scalable_blockchain_voti.Prelude.{get_elem?-map}
use scalable_blockchain_voti.Viem.{Viem, hash_abi}
use scalable_blockchain_voti.Viem.Laws.{Laws, IsDigest, IsDigest-of_hash_abi}
use scalable_blockchain_voti.Merkle.{
  MerkleProofStep, present, merkle_root, merkle_proof, verify_merkle_proof,
}
use scalable_blockchain_voti.Nullifiers.{NullifierAccumulator, Others, root}
use scalable_blockchain_voti.Nullifiers.Adding.{IsValid}
use scalable_blockchain_voti.Nullifiers.Batched.{IsCalling, built_steps, taken-IsValid}
use scalable_blockchain_voti.Package.Digest.{digest_content_id}
use scalable_blockchain_voti.Batch.{PackageInclusionReceipt, index_of, found_at}
use scalable_blockchain_voti.Batch.Listed.{member-IsListed}
use scalable_blockchain_voti.Jub.{
  BabyJub, aggregate_proof_compatible_ciphertexts, digest_proof_compatible_ciphertext, assert_hex32,
}
use scalable_blockchain_voti.Compatible.{
  Snark, ProofCompatibleVotePackage, validate_proof_compatible_vote_package,
  digest_proof_compatible_vote_package,
}
use scalable_blockchain_voti.Compatible.Batches.{
  StoredProofCompatibleVotePackage, CompatibleEntry, ProofCompatibleBatchManifest,
  compatible_nullifiers, check_compatible_elections, compatible_leaf, compatible_entry,
  prepare_compatible_batch, seal_compatible_batch, build_proof_compatible_batch_manifest,
  build_proof_compatible_inclusion_receipt, compute_proof_compatible_batch_public_inputs_hash,
}

module _ (v : Viem) (laws : Laws v) (snark : Snark) {F : Type 0} (jub : BabyJub F) where
  record IsSealed (previous : Text) (sorted : List CompatibleEntry) (after : NullifierAccumulator)
      (m : ProofCompatibleBatchManifest) : Type 0 where
    pub previous_kept : m.previous_nullifier_root ≡ lower previous
    pub root_made : root v after ≡ ok m.nullifier_root
    pub nullifiers_kept : m.ballot_nullifiers ≡ compatible_nullifiers sorted
    pub digests_kept : m.package_digests ≡ map (λ entry. entry.digest) sorted
    pub leaves_made : map_result (compatible_leaf v) sorted ≡ ok m.package_leaf_hashes
    pub cid_root_made : merkle_root v m.package_leaf_hashes ≡ ok m.cid_merkle_root

  seal_compatible_batch-IsSealed :
      (election_id previous : Text) (sorted : List CompatibleEntry) (after : NullifierAccumulator)
      (m : ProofCompatibleBatchManifest)
      → seal_compatible_batch v snark jub election_id previous sorted after ≡ ok m
      → IsSealed previous sorted after m
  unfolding seal_compatible_batch
  seal_compatible_batch-IsSealed election_id previous sorted after m h =
      let (leaves, made, h1) = >>=-eq-ok (map_result (compatible_leaf v) sorted) _ h in
      let (aggregate, _, h2) = >>=-eq-ok (aggregate_proof_compatible_ciphertexts jub _) _ h1 in
      let (_, _, h3) = >>=-eq-ok (digest_proof_compatible_ciphertext v aggregate) _ h2 in
      let (cid, cid_made, h4) = >>=-eq-ok (merkle_root v leaves) _ h3 in
      let (last, last_made, h5) = >>=-eq-ok (root v after) _ h4 in
      let (_, _, h6) = >>=-eq-ok (hash_abi v _) _ h5 in
      let (_, _, h7) =
        >>=-eq-ok (compute_proof_compatible_batch_public_inputs_hash v _ _ _ _ _ _ _ _) _ h6 in
      subst (IsSealed previous sorted after) (ok_inj h7) (record {
        previous_kept = refl;
        root_made = last_made;
        nullifiers_kept = refl;
        digests_kept = refl;
        leaves_made = made;
        cid_root_made = cid_made;
      })

  record IsPrepared (previous : Text) (stored : List StoredProofCompatibleVotePackage)
      (before : NullifierAccumulator) (sorted : List CompatibleEntry) : Type 0 where
    pub continues : root v before ≡ ok (lower previous)
    pub validated : List CompatibleEntry
    pub validated_made : map_result (compatible_entry v snark jub) stored ≡ ok validated
    pub sorted_made :
        sorted ≡ sort_by (λ left right. v.locale_le left.digest right.digest) validated

  prepare_compatible_batch-IsPrepared :
      (election_id previous : Text) (stored : List StoredProofCompatibleVotePackage)
      (before : NullifierAccumulator) (sorted : List CompatibleEntry)
      → prepare_compatible_batch v snark jub election_id previous stored before ≡ ok sorted
      → IsPrepared previous stored before sorted
  unfolding prepare_compatible_batch
  prepare_compatible_batch-IsPrepared election_id previous stored before sorted h =
      let (_, h1) = then-eq-ok (assert_hex32 v election_id _) _ h in
      let (_, h2) = then-eq-ok (assert_hex32 v previous _) _ h1 in
      let (_, h3) = >>-eq-ok _ _ _ h2 in
      let (current, made, h4) = >>=-eq-ok (root v before) _ h3 in
      let (same, h5) = >>-eq-ok _ _ _ h4 in
      let (validated, each, h6) =
        >>=-eq-ok (map_result (compatible_entry v snark jub) stored) _ h5 in
      let (_, h7) = then-eq-ok (check_compatible_elections _ validated) _ h6 in
      record {
        continues = made ∙ ap ok ((text_eq_iff current (lower previous)).0 same);
        validated = validated;
        validated_made = each;
        sorted_made = sym (ok_inj h7);
      }

  -- When `buildProofCompatibleBatchManifest` returns, with other callers of the accumulator doing no more
  -- than `addMany` while it awaits, and from a valid accumulator: the previous root of the manifest
  -- is the root of the accumulator at the start and its root is that of the accumulator at the end;
  -- to what the others had left when the packages were validated, the builder's own `addMany` has
  -- added the nullifiers of the manifest, in lower case and in their order; the accumulator at the
  -- end is what the others made of that, and is valid, so that no nullifier is in it twice.
  pub build_proof_compatible_batch_manifest-IsValid :
      (others : Others) (election_id previous : Text)
      (stored : List StoredProofCompatibleVotePackage) (before : NullifierAccumulator)
      (m : ProofCompatibleBatchManifest) (after : NullifierAccumulator)
      → IsCalling v others
      → IsValid v before
      → build_proof_compatible_batch_manifest v snark jub others election_id previous stored before
        ≡ (ok m, after)
      → (root v before ≡ ok m.previous_nullifier_root)
        × (root v after ≡ ok m.nullifier_root)
        × (added : NullifierAccumulator) × (added.seen
            ≡ (others.validating before).seen ++ map lower m.ballot_nullifiers)
        × (others.summing added ≡ after)
        × IsValid v after
  unfolding build_proof_compatible_batch_manifest
  build_proof_compatible_batch_manifest-IsValid others election_id previous stored before m after
        calling valid h =
      let (sorted, e, added, taken, end, sealed) =
        built_steps v others
          (prepare_compatible_batch v snark jub election_id previous stored before)
          compatible_nullifiers (seal_compatible_batch v snark jub election_id previous) before m
          after h in
      let prepared =
        prepare_compatible_batch-IsPrepared election_id previous stored before sorted e in
      let s = seal_compatible_batch-IsSealed election_id previous sorted after m sealed in
      let (seen, after_valid) =
        taken-IsValid v laws others calling (compatible_nullifiers sorted) before added after valid
          taken end in
      (
        prepared.continues ∙ ap ok (sym s.previous_kept),
        s.root_made,
        added,
        seen ∙ ap (λ l. (others.validating before).seen ++ map lower l) (sym s.nullifiers_kept),
        end,
        after_valid,
      )

  compatible_leaf-IsDigest :
      (entry : CompatibleEntry) (l : Text) → compatible_leaf v entry ≡ ok l → IsDigest v l
  unfolding compatible_leaf
  compatible_leaf-IsDigest entry l h =
      let (_, _, h1) = >>=-eq-ok (digest_content_id v entry.content_id) _ h in
      IsDigest-of_hash_abi v laws _ l h1

  receipt_returned :
      (m : ProofCompatibleBatchManifest) (p : ProofCompatibleVotePackage) (d : Text) (i : ℕ)
      (leaf : Text) (proof : List MerkleProofStep)
      → digest_proof_compatible_vote_package jub v snark p ≡ ok d
      → index_of d m.package_digests ≡ some i
      → get_elem? m.package_leaf_hashes i ≡ some leaf
      → merkle_proof v m.package_leaf_hashes (natural i) ≡ ok proof
      → build_proof_compatible_inclusion_receipt v snark jub m p
        ≡ ok (record {
          batch_manifest_digest = m.manifest_digest;
          package_digest = d;
          leaf_hash = leaf;
          leaf_index = i;
          proof = proof;
        })
  unfolding build_proof_compatible_inclusion_receipt found_at present
  receipt_returned m p d i leaf proof digested found there made =
      rw (digested, found, there, made) refl

  -- When `buildProofCompatibleBatchManifest` returns, `buildProofCompatibleInclusionReceipt` returns
  -- a receipt for each package that it was given; the receipt names the digest of the package and
  -- the manifest, and its proof verifies its leaf against the Merkle root of the manifest.
  pub build_proof_compatible_inclusion_receipt-verifies :
      (others : Others) (election_id previous : Text)
      (stored : List StoredProofCompatibleVotePackage) (before : NullifierAccumulator)
      (m : ProofCompatibleBatchManifest) (after : NullifierAccumulator) (i : ℕ)
      (p : StoredProofCompatibleVotePackage)
      → build_proof_compatible_batch_manifest v snark jub others election_id previous stored before
        ≡ (ok m, after)
      → get_elem? stored i ≡ some p
      → (r : PackageInclusionReceipt) × (build_proof_compatible_inclusion_receipt v snark jub m
            p.vote_package
          ≡ ok r)
        × (digest_proof_compatible_vote_package jub v snark p.vote_package ≡ ok r.package_digest)
        × (r.batch_manifest_digest ≡ m.manifest_digest)
        × (verify_merkle_proof v r.leaf_hash r.proof m.cid_merkle_root ≡ ok true)
  unfolding build_proof_compatible_batch_manifest compatible_entry
  build_proof_compatible_inclusion_receipt-verifies others election_id previous stored before m
        after i p h at =
      let (sorted, e, added, taken, end, sealed) =
        built_steps v others
          (prepare_compatible_batch v snark jub election_id previous stored before)
          compatible_nullifiers (seal_compatible_batch v snark jub election_id previous) before m
          after h in
      let prepared =
        prepare_compatible_batch-IsPrepared election_id previous stored before sorted e in
      let s = seal_compatible_batch-IsSealed election_id previous sorted after m sealed in
      let (entry, entry_at, entry_made) =
        map_result_at (compatible_entry v snark jub) stored prepared.validated i
          prepared.validated_made at in
      let (validated, _, h1) =
        >>=-eq-ok (validate_proof_compatible_vote_package jub v snark p.vote_package) _
          entry_made in
      let (d, digested, h2) =
        >>=-eq-ok (digest_proof_compatible_vote_package jub v snark p.vote_package) _ h1 in
      let same : d ≡ entry.digest = ap (λ x. x.digest) (ok_inj h2) in
      let listed : member d (map (λ entry. entry.digest) sorted) ≡ true =
        ap (λ l. member d (map (λ entry. entry.digest) l)) prepared.sorted_made
        ∙ member-map-sort_by _ (λ entry. entry.digest) d prepared.validated
        ∙ member_of_get_elem? (map (λ entry. entry.digest) prepared.validated) i (
            get_elem?-map (λ entry. entry.digest) prepared.validated i entry_at
            ∙ ap some (sym same)) in
      let place =
        member-IsListed v laws (λ entry. entry.digest) (compatible_leaf v) compatible_leaf-IsDigest
          sorted m.package_leaf_hashes m.cid_merkle_root d s.leaves_made s.cid_root_made listed in
      (
        record {
          batch_manifest_digest = m.manifest_digest;
          package_digest = d;
          leaf_hash = place.leaf_hash;
          leaf_index = place.index;
          proof = place.proof;
        },
        receipt_returned m p.vote_package d place.index place.leaf_hash place.proof digested
            (ap (index_of d) s.digests_kept ∙ place.found) place.leaf_there place.proof_made,
        digested,
        refl,
        place.verified,
      )
