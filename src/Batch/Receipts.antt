-- ===== src/Batch/Receipts.antt =====
-- Every package of a batch has an inclusion receipt that verifies against the batch's Merkle root.
use scalable_blockchain_voti.Prelude.{
  ℕ, suc, ◌≡◌, refl, sym, ap, ◌∙◌, true, some, List, [], ◌∷◌, get_elem?, All, Bool-cases, inl, inr,
}
use scalable_blockchain_voti.Outcome.{ok, map_result, >>=-eq-ok, ok_inj}
use scalable_blockchain_voti.Outcome.Mapping.{map_result_at, get_elem?-map_result, All-map_result}
use scalable_blockchain_voti.Js.Texts.{Text, lower, text_eq, text_eq_iff}
use scalable_blockchain_voti.Js.Sets.{member}
use scalable_blockchain_voti.Viem.{Viem, is_bytes32}
use scalable_blockchain_voti.Viem.Laws.{Laws, IsDigest, IsDigest-of_hash_abi}
use scalable_blockchain_voti.Merkle.{present, verify_merkle_proof}
use scalable_blockchain_voti.Merkle.Completeness.{merkle_proof_verifies}
use scalable_blockchain_voti.Nullifiers.{NullifierAccumulator}
use scalable_blockchain_voti.Package.Validation.{VotePackage, validate_vote_package}
use scalable_blockchain_voti.Package.Normal.{validate_vote_package_idem}
use scalable_blockchain_voti.Package.Digest.{
  StoredVotePackage, digest_vote_package, digest_content_id, hash_package_leaf,
}
use scalable_blockchain_voti.Batch.{
  BatchManifest, PackageInclusionReceipt, index_of, found_at, build_inclusion_receipt,
  build_batch_manifest, normalize_stored,
}
use scalable_blockchain_voti.Batch.Built.{IsSealed, build_batch_manifest-eq-ok}
use scalable_blockchain_voti.Batch.Sorted.{sort_by_digest_lists}

pub index_of-member :
    (x : Text) (xs : List Text)
    → member x xs ≡ true
    → (i : ℕ) × (index_of x xs ≡ some i) × (get_elem? xs i ≡ some x)
unfolding index_of member
index_of-member x [] m = cc
index_of-member x (y ∷ ys) m = elim (Bool-cases (text_eq y x)) [
  | inl here ↦ (0, rw here refl, ap some ((text_eq_iff y x).0 here))
  | inr there ↦
      let (i, e, at) = index_of-member x ys (rw there at m) in (suc i, rw (there, e) refl, at)
]

module _ (v : Viem) (laws : Laws v) where
  hash_package_leaf-IsDigest :
      (s : StoredVotePackage) (leaf : Text) → hash_package_leaf v s ≡ ok leaf → IsDigest v leaf
  unfolding hash_package_leaf
  hash_package_leaf-IsDigest s leaf h =
      let (q, _, h1) = >>=-eq-ok (validate_vote_package v s.vote_package) _ h in
      let (c, _, h2) = >>=-eq-ok (digest_content_id v s.content_id) _ h1 in
      let (d, _, h3) = >>=-eq-ok (digest_vote_package v q) _ h2 in
      IsDigest-of_hash_abi v laws _ leaf h3

  digest_vote_package-IsDigest :
      (p : VotePackage) (d : Text) → digest_vote_package v p ≡ ok d → IsDigest v d
  unfolding digest_vote_package
  digest_vote_package-IsDigest p d h =
      let (q, _, h1) = >>=-eq-ok (validate_vote_package v p) _ h in
      IsDigest-of_hash_abi v laws _ d h1

  -- A package and its normal form have one digest.
  pub digest_of_normal :
      (p q : VotePackage)
      → validate_vote_package v p ≡ ok q
      → digest_vote_package v q ≡ digest_vote_package v p
  unfolding digest_vote_package
  digest_of_normal p q h = rw (validate_vote_package_idem v laws p q h, h) refl

  leaves_fit :
      (sorted : List StoredVotePackage) (leaves : List Text)
      → map_result (hash_package_leaf v) sorted ≡ ok leaves
      → All (λ l. is_bytes32 v l ≡ true) leaves
  leaves_fit sorted leaves h =
      All-map_result (hash_package_leaf v) (λ _. Unit {0}) (λ l. is_bytes32 v l ≡ true)
        (λ s leaf _ e. (hash_package_leaf-IsDigest s leaf e).well_formed) sorted leaves
        (anything sorted) h
    where
      anything : (l : List StoredVotePackage) → All (λ _. Unit {0}) l
      anything [] = tt
      anything (s ∷ l) = (tt, anything l)

  -- What a receipt says: its leaf is that of a package with the digest, and is under the root.
  pub record IsReceipt (m : BatchManifest) (d : Text) (r : PackageInclusionReceipt) : Type 0 where
    pub digest_kept : r.package_digest ≡ d
    pub manifest_kept : r.batch_manifest_digest ≡ m.manifest_digest
    pub source : StoredVotePackage
    pub source_digest : digest_vote_package v source.vote_package ≡ ok d
    pub source_leaf : hash_package_leaf v source ≡ ok r.leaf_hash
    pub verified : verify_merkle_proof v r.leaf_hash r.proof m.cid_merkle_root ≡ ok true

  sealed-IsReceipt :
      (election_id previous : Text) (sorted : List StoredVotePackage) (after : NullifierAccumulator)
      (m : BatchManifest) (d : Text)
      → IsSealed v election_id previous sorted after m
      → lower d ≡ d
      → member d m.package_digests ≡ true
      → (r : PackageInclusionReceipt) × (build_inclusion_receipt v m d ≡ ok r) × IsReceipt m d r
  unfolding build_inclusion_receipt found_at present
  sealed-IsReceipt election_id previous sorted after m d sealed lowered listed =
      let (i, found, at) = index_of-member d m.package_digests listed in
      let (s, s_at, s_digest) =
        get_elem?-map_result (λ s. digest_vote_package v s.vote_package) sorted m.package_digests i
          sealed.digests_made at in
      let (leaf, leaf_at, s_leaf) =
        map_result_at (hash_package_leaf v) sorted m.package_leaf_hashes i sealed.leaves_made
          s_at in
      let (root, proof, root_made, root_digest, proof_made, verified) =
        merkle_proof_verifies v laws m.package_leaf_hashes i
          (leaves_fit sorted m.package_leaf_hashes sealed.leaves_made) leaf_at in
      let same : root ≡ m.cid_merkle_root = ok_inj (sym root_made ∙ sealed.cid_root_made) in
      (
        record {
          batch_manifest_digest = m.manifest_digest;
          package_digest = d;
          leaf_hash = leaf;
          leaf_index = i;
          proof = proof;
        },
        rw (lowered, found, proof_made, leaf_at) refl,
        record {
          digest_kept = refl;
          manifest_kept = refl;
          source = s;
          source_digest = s_digest;
          source_leaf = s_leaf;
          verified = rw same at verified;
        },
      )

  -- When `buildBatchManifest` returns, then for each package that it was given, by the digest that
  -- `digestVotePackage` gives for it as it came in, `buildInclusionReceipt` returns a receipt: it
  -- names that digest and the manifest, its leaf hash is the leaf of a package with that digest,
  -- and its proof verifies against the manifest's Merkle root.
  pub build_inclusion_receipt-IsReceipt :
      (election_id previous : Text) (stored : List StoredVotePackage)
      (before : NullifierAccumulator) (m : BatchManifest) (after : NullifierAccumulator) (i : ℕ)
      (p : StoredVotePackage) (d : Text)
      → build_batch_manifest v election_id previous stored before ≡ (ok m, after)
      → get_elem? stored i ≡ some p
      → digest_vote_package v p.vote_package ≡ ok d
      → (r : PackageInclusionReceipt) × (build_inclusion_receipt v m d ≡ ok r) × IsReceipt m d r
  unfolding normalize_stored
  build_inclusion_receipt-IsReceipt election_id previous stored before m after i p d h at e =
      let built = build_batch_manifest-eq-ok v election_id previous stored before m after h in
      let prepared = built.prepared in
      let (n, n_at, n_made) =
        map_result_at (normalize_stored v) stored prepared.normalized i prepared.normalized_made
          at in
      let (q, valid, n_eq) = >>=-eq-ok (validate_vote_package v p.vote_package) _ n_made in
      let same : q ≡ n.vote_package = ap (λ x. x.vote_package) (ok_inj n_eq) in
      let n_digest : digest_vote_package v n.vote_package ≡ ok d =
        ap (digest_vote_package v) (sym same) ∙ digest_of_normal p.vote_package q valid ∙ e in
      sealed-IsReceipt election_id previous built.sorted after m d built.sealed
        (digest_vote_package-IsDigest p.vote_package d e).lowered
        (sort_by_digest_lists v prepared.normalized built.sorted m.package_digests i
          prepared.sorted_made built.sealed.digests_made n_at n_digest)
