-- ===== src/Batch/Built.antt =====
-- What `buildBatchManifest` has computed when it returns, step by step.
use scalable_blockchain_voti.Prelude.{◌≡◌, sym, ap, ◌∙◌, List, map, length, subst, ◌<◌, ltb→lt}
use scalable_blockchain_voti.Outcome.{ok, map_result, >>=-eq-ok, >>-eq-ok, then-eq-ok, ok_inj}
use scalable_blockchain_voti.Outcome.Stateful.{and_then-eq-ok}
use scalable_blockchain_voti.Js.Texts.{Text, lower, text_eq_iff}
use scalable_blockchain_voti.Viem.{Viem, hash_abi, assert_bytes32}
use scalable_blockchain_voti.Merkle.{merkle_root}
use scalable_blockchain_voti.Nullifiers.{NullifierAccumulator, root, add_many}
use scalable_blockchain_voti.Package.Digest.{
  StoredVotePackage, digest_vote_package, hash_package_leaf,
}
use scalable_blockchain_voti.Batch.{
  BatchManifest, prepare_batch, seal_batch, build_batch_manifest, compute_batch_public_inputs_hash,
  normalize_stored, check_elections, sort_by_digest,
}

abbrev pub nullifiers_of : List StoredVotePackage → List Text
nullifiers_of = map (λ s. s.vote_package.ballot_nullifier)

module _ (v : Viem) where
  pub record IsSealed (election_id previous : Text) (sorted : List StoredVotePackage)
      (after : NullifierAccumulator) (m : BatchManifest) : Type 0 where
    pub digests_made :
        map_result (λ s. digest_vote_package v s.vote_package) sorted ≡ ok m.package_digests
    pub leaves_made : map_result (hash_package_leaf v) sorted ≡ ok m.package_leaf_hashes
    pub cid_root_made : merkle_root v m.package_leaf_hashes ≡ ok m.cid_merkle_root
    pub root_made : root v after ≡ ok m.nullifier_root
    pub election_kept : m.election_id ≡ lower election_id
    pub previous_kept : m.previous_nullifier_root ≡ lower previous
    pub size_kept : m.batch_size ≡ length sorted
    pub nullifiers_kept : m.ballot_nullifiers ≡ nullifiers_of sorted

  seal_batch-eq-ok :
      (election_id previous : Text) (sorted : List StoredVotePackage) (after : NullifierAccumulator)
      (m : BatchManifest)
      → seal_batch v election_id previous sorted after ≡ ok m
      → IsSealed election_id previous sorted after m
  unfolding seal_batch
  seal_batch-eq-ok election_id previous sorted after m h =
      let (digests, made1, h1) =
        >>=-eq-ok (map_result (λ s. digest_vote_package v s.vote_package) sorted) _ h in
      let (leaves, made2, h2) = >>=-eq-ok (map_result (hash_package_leaf v) sorted) _ h1 in
      let (cid, made3, h3) = >>=-eq-ok (merkle_root v leaves) _ h2 in
      let (nroot, made4, h4) = >>=-eq-ok (root v after) _ h3 in
      let (manifest, _, h5) = >>=-eq-ok (hash_abi v _) _ h4 in
      let (inputs, _, h6) = >>=-eq-ok (compute_batch_public_inputs_hash v _ _ _ _ _ _ _) _ h5 in
      let e = ok_inj h6 in
      record {
        digests_made = made1 ∙ ap (λ x. ok x.package_digests) e;
        leaves_made = made2 ∙ ap (λ x. ok x.package_leaf_hashes) e;
        cid_root_made =
            subst (λ l. merkle_root v l ≡ ok m.cid_merkle_root) (ap (λ x. x.package_leaf_hashes) e)
              (made3 ∙ ap (λ x. ok x.cid_merkle_root) e);
        root_made = made4 ∙ ap (λ x. ok x.nullifier_root) e;
        election_kept = sym (ap (λ x. x.election_id) e);
        previous_kept = sym (ap (λ x. x.previous_nullifier_root) e);
        size_kept = sym (ap (λ x. x.batch_size) e);
        nullifiers_kept = sym (ap (λ x. x.ballot_nullifiers) e);
      }

  -- What `prepareBatch` has checked: the root that the manifest continues, and each package.
  pub record IsPrepared (election_id previous : Text) (stored : List StoredVotePackage)
      (before : NullifierAccumulator) (sorted : List StoredVotePackage) : Type 0 where
    pub some_package : 0 < length stored
    pub continues : root v before ≡ ok (lower previous)
    pub normalized : List StoredVotePackage
    pub normalized_made : map_result (normalize_stored v) stored ≡ ok normalized
    pub elections_fit : check_elections v (lower election_id) 0 normalized ≡ ok tt
    pub sorted_made : sort_by_digest v normalized ≡ ok sorted

  prepare_batch-eq-ok :
      (election_id previous : Text) (stored : List StoredVotePackage)
      (before : NullifierAccumulator) (sorted : List StoredVotePackage)
      → prepare_batch v election_id previous stored before ≡ ok sorted
      → IsPrepared election_id previous stored before sorted
  unfolding prepare_batch
  prepare_batch-eq-ok election_id previous stored before sorted h =
      let (_, h1) = then-eq-ok (assert_bytes32 v election_id _) _ h in
      let (_, h2) = then-eq-ok (assert_bytes32 v previous _) _ h1 in
      let (nonempty, h3) = >>-eq-ok _ _ _ h2 in
      let (current, made, h4) = >>=-eq-ok (root v before) _ h3 in
      let (same, h5) = >>-eq-ok _ _ _ h4 in
      let (normalized, made', h6) = >>=-eq-ok (map_result (normalize_stored v) stored) _ h5 in
      let (fit, h7) = then-eq-ok (check_elections v (lower election_id) 0 normalized) _ h6 in
      record {
        some_package = ltb→lt _ _ nonempty;
        continues = made ∙ ap ok ((text_eq_iff current (lower previous)).0 same);
        normalized = normalized;
        normalized_made = made';
        elections_fit = fit;
        sorted_made = h7;
      }

  -- A run of `buildBatchManifest` that returned.
  pub record IsBuilt (election_id previous : Text) (stored : List StoredVotePackage)
      (before : NullifierAccumulator) (m : BatchManifest) (after : NullifierAccumulator)
      : Type 0 where
    pub sorted : List StoredVotePackage
    pub prepared : IsPrepared election_id previous stored before sorted
    pub added_all : add_many v (nullifiers_of sorted) before ≡ (ok tt, after)
    pub sealed : IsSealed election_id previous sorted after m

  pub build_batch_manifest-eq-ok :
      (election_id previous : Text) (stored : List StoredVotePackage)
      (before : NullifierAccumulator) (m : BatchManifest) (after : NullifierAccumulator)
      → build_batch_manifest v election_id previous stored before ≡ (ok m, after)
      → IsBuilt election_id previous stored before m after
  unfolding build_batch_manifest
  build_batch_manifest-eq-ok election_id previous stored before m after h =
      let (sorted, s, e, h1) =
        and_then-eq-ok (prepare_batch v election_id previous stored before, before) _ h in
      let (_, t, added, h2) = and_then-eq-ok (add_many v (nullifiers_of sorted) s) _ h1 in
      let same : before ≡ s = ap (λ r. r.1) e in
      let end : t ≡ after = ap (λ r. r.1) h2 in
      record {
        sorted = sorted;
        prepared = prepare_batch-eq-ok election_id previous stored before sorted (ap (λ r. r.0) e);
        added_all = rw same (rw (← end) added);
        sealed = rw (← end) (seal_batch-eq-ok election_id previous sorted t m (ap (λ r. r.0) h2));
      }
