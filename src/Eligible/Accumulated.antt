-- ===== src/Eligible/Accumulated.antt =====
-- What `buildEligibleBatchManifest` and `buildEligibleInclusionReceipt` promise.
use scalable_blockchain_voti.Prelude.{
  ℕ, ◌≡◌, refl, sym, ap, ◌∙◌, true, some, List, map, ◌++◌, All-get_elem?, get_elem?,
}
use scalable_blockchain_voti.Outcome.{ok, >>=-eq-ok, ok_inj}
use scalable_blockchain_voti.Outcome.Mapping.{map_result_at}
use scalable_blockchain_voti.Js.Texts.{Text, lower}
use scalable_blockchain_voti.Js.Numbers.{natural}
use scalable_blockchain_voti.Js.Sets.{member, member_of_get_elem?}
use scalable_blockchain_voti.Js.Sorting.Elements.{member-map-sort_by}
use scalable_blockchain_voti.Prelude.{get_elem?-map}
use scalable_blockchain_voti.Viem.{Viem}
use scalable_blockchain_voti.Viem.Laws.{Laws, IsDigest, IsDigest-of_hash_abi}
use scalable_blockchain_voti.Merkle.{MerkleProofStep, present, merkle_proof, verify_merkle_proof}
use scalable_blockchain_voti.Nullifiers.{NullifierAccumulator, Others, root}
use scalable_blockchain_voti.Nullifiers.Adding.{IsValid}
use scalable_blockchain_voti.Nullifiers.Batched.{IsCalling, taken-IsValid}
use scalable_blockchain_voti.Package.Digest.{digest_content_id}
use scalable_blockchain_voti.Batch.{PackageInclusionReceipt, index_of, found_at}
use scalable_blockchain_voti.Batch.Listed.{member-IsListed}
use scalable_blockchain_voti.Jub.{BabyJub}
use scalable_blockchain_voti.Compatible.{Snark}
use scalable_blockchain_voti.Eligible.{
  EligibleVotePackage, validate_eligible_vote_package, digest_eligible_vote_package,
  verify_eligible_vote_package_proof,
}
use scalable_blockchain_voti.Eligible.Batches.{
  StoredEligibleVotePackage, EligibleEntry, EligibleBatchManifest, eligible_nullifiers,
  eligible_leaf, eligible_entry, build_eligible_batch_manifest, build_eligible_inclusion_receipt,
}
use scalable_blockchain_voti.Eligible.Built.{IsChecked, build_eligible_batch_manifest-IsBuilt}

module _ (v : Viem) (laws : Laws v) (snark : Snark) {F : Type 0} (jub : BabyJub F) where
  -- When `buildEligibleBatchManifest` returns, with other callers of the accumulator doing no more
  -- than `addMany` while it awaits, and from a valid accumulator: the previous root of the manifest
  -- is the root of the accumulator at the start and its root is that of the accumulator at the end;
  -- to what the others had left when the packages were validated, the builder's own `addMany` has
  -- added the nullifiers of the manifest, in lower case and in their order; the accumulator at the
  -- end is what the others made of that, and is valid, so that no nullifier is in it twice.
  pub build_eligible_batch_manifest-IsValid :
      (others : Others) (election_id eligibility_root previous key : Text)
      (stored : List StoredEligibleVotePackage) (before : NullifierAccumulator)
      (m : EligibleBatchManifest) (after : NullifierAccumulator)
      → IsCalling v others
      → IsValid v before
      → build_eligible_batch_manifest v snark jub others election_id eligibility_root previous key
          stored before
        ≡ (ok m, after)
      → (root v before ≡ ok m.previous_nullifier_root)
        × (root v after ≡ ok m.nullifier_root)
        × (added : NullifierAccumulator) × (added.seen
            ≡ (others.validating before).seen ++ map lower m.ballot_nullifiers)
        × (others.summing added ≡ after)
        × IsValid v after
  build_eligible_batch_manifest-IsValid others election_id eligibility_root previous key stored
        before m after calling valid h =
      let b =
        build_eligible_batch_manifest-IsBuilt v snark jub others election_id eligibility_root
          previous key stored before m after h in
      let (seen, after_valid) =
        taken-IsValid v laws others calling (eligible_nullifiers b.ready.sorted) before b.added
          after valid b.taken b.end in
      (
        b.prepared.continues ∙ ap ok (sym b.sealed.previous_kept),
        b.sealed.root_made,
        b.added,
        seen
            ∙ ap (λ l. (others.validating before).seen ++ map lower l)
                (sym b.sealed.nullifiers_kept),
        b.end,
        after_valid,
      )

  eligible_leaf-IsDigest :
      (entry : EligibleEntry) (l : Text) → eligible_leaf v entry ≡ ok l → IsDigest v l
  unfolding eligible_leaf
  eligible_leaf-IsDigest entry l h =
      let (_, _, h1) = >>=-eq-ok (digest_content_id v entry.content_id) _ h in
      IsDigest-of_hash_abi v laws _ l h1

  receipt_returned :
      (m : EligibleBatchManifest) (p : EligibleVotePackage) (d : Text) (i : ℕ) (leaf : Text)
      (proof : List MerkleProofStep)
      → digest_eligible_vote_package jub v snark p ≡ ok d
      → index_of d m.package_digests ≡ some i
      → get_elem? m.package_leaf_hashes i ≡ some leaf
      → merkle_proof v m.package_leaf_hashes (natural i) ≡ ok proof
      → build_eligible_inclusion_receipt v snark jub m p
        ≡ ok (record {
          batch_manifest_digest = m.manifest_digest;
          package_digest = d;
          leaf_hash = leaf;
          leaf_index = i;
          proof = proof;
        })
  unfolding build_eligible_inclusion_receipt found_at present
  receipt_returned m p d i leaf proof digested found there made =
      rw (digested, found, there, made) refl

  -- When `buildEligibleBatchManifest` returns, `buildEligibleInclusionReceipt` returns
  -- a receipt for each package that it was given; the receipt names the digest of the package and
  -- the manifest, and its proof verifies its leaf against the Merkle root of the manifest.
  pub build_eligible_inclusion_receipt-verifies :
      (others : Others) (election_id eligibility_root previous key : Text)
      (stored : List StoredEligibleVotePackage) (before : NullifierAccumulator)
      (m : EligibleBatchManifest) (after : NullifierAccumulator) (i : ℕ)
      (p : StoredEligibleVotePackage)
      → build_eligible_batch_manifest v snark jub others election_id eligibility_root previous key
          stored before
        ≡ (ok m, after)
      → get_elem? stored i ≡ some p
      → (r : PackageInclusionReceipt) × (build_eligible_inclusion_receipt v snark jub m
            p.vote_package
          ≡ ok r)
        × (digest_eligible_vote_package jub v snark p.vote_package ≡ ok r.package_digest)
        × (r.batch_manifest_digest ≡ m.manifest_digest)
        × (verify_merkle_proof v r.leaf_hash r.proof m.cid_merkle_root ≡ ok true)
  unfolding eligible_entry
  build_eligible_inclusion_receipt-verifies others election_id eligibility_root previous key stored
        before m after i p h at =
      let b =
        build_eligible_batch_manifest-IsBuilt v snark jub others election_id eligibility_root
          previous key stored before m after h in
      let (entry, entry_at, entry_made) =
        map_result_at (eligible_entry v snark jub) stored b.prepared.validated i
          b.prepared.validated_made at in
      let (validated, _, h1) =
        >>=-eq-ok (validate_eligible_vote_package jub v snark p.vote_package) _ entry_made in
      let (d, digested, h2) =
        >>=-eq-ok (digest_eligible_vote_package jub v snark p.vote_package) _ h1 in
      let same : d ≡ entry.digest = ap (λ x. x.digest) (ok_inj h2) in
      let listed : member d (map (λ entry. entry.digest) b.ready.sorted) ≡ true =
        ap (λ l. member d (map (λ entry. entry.digest) l)) b.prepared.sorted_made
        ∙ member-map-sort_by _ (λ entry. entry.digest) d b.prepared.validated
        ∙ member_of_get_elem? (map (λ entry. entry.digest) b.prepared.validated) i (
            get_elem?-map (λ entry. entry.digest) b.prepared.validated i entry_at
            ∙ ap some (sym same)) in
      let place =
        member-IsListed v laws (λ entry. entry.digest) (eligible_leaf v) eligible_leaf-IsDigest
          b.ready.sorted m.package_leaf_hashes m.cid_merkle_root d b.sealed.leaves_made
          b.sealed.cid_root_made listed in
      (
        record {
          batch_manifest_digest = m.manifest_digest;
          package_digest = d;
          leaf_hash = place.leaf_hash;
          leaf_index = place.index;
          proof = place.proof;
        },
        receipt_returned m p.vote_package d place.index place.leaf_hash place.proof digested
            (ap (index_of d) b.sealed.digests_kept ∙ place.found) place.leaf_there place.proof_made,
        digested,
        refl,
        place.verified,
      )

  -- When `buildEligibleBatchManifest` returns, each package that it was given is accepted by
  -- `validateEligibleVotePackage`; what that returns is of the election and the eligibility root
  -- that were given, up to case, and its proof was verified with the key that was given.
  pub build_eligible_batch_manifest-verified :
      (others : Others) (election_id eligibility_root previous key : Text)
      (stored : List StoredEligibleVotePackage) (before : NullifierAccumulator)
      (m : EligibleBatchManifest) (after : NullifierAccumulator) (i : ℕ)
      (p : StoredEligibleVotePackage)
      → build_eligible_batch_manifest v snark jub others election_id eligibility_root previous key
          stored before
        ≡ (ok m, after)
      → get_elem? stored i ≡ some p
      → (q : EligibleVotePackage) × (validate_eligible_vote_package jub v snark p.vote_package
          ≡ ok q)
        × (q.election_id ≡ lower election_id)
        × (q.eligibility_root ≡ lower eligibility_root)
        × (verify_eligible_vote_package_proof jub v snark q key ≡ ok true)
  unfolding eligible_entry
  build_eligible_batch_manifest-verified others election_id eligibility_root previous key stored
        before m after i p h at =
      let b =
        build_eligible_batch_manifest-IsBuilt v snark jub others election_id eligibility_root
          previous key stored before m after h in
      let (entry, entry_at, entry_made) =
        map_result_at (eligible_entry v snark jub) stored b.prepared.validated i
          b.prepared.validated_made at in
      let (q, valid, h1) =
        >>=-eq-ok (validate_eligible_vote_package jub v snark p.vote_package) _ entry_made in
      let (d, _, h2) = >>=-eq-ok (digest_eligible_vote_package jub v snark p.vote_package) _ h1 in
      let same : q ≡ entry.vote_package = ap (λ x. x.vote_package) (ok_inj h2) in
      let c =
        All-get_elem?
          (IsChecked v snark jub (lower election_id) (lower eligibility_root) key b.ready.first)
          b.prepared.validated i b.prepared.checked entry_at in
      (
        q,
        valid,
        ap (λ x. x.election_id) same ∙ c.election_fits,
        ap (λ x. x.eligibility_root) same ∙ c.root_fits,
        ap (λ x. verify_eligible_vote_package_proof jub v snark x key) same ∙ c.proof_verified,
      )
