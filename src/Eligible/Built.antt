-- ===== src/Eligible/Built.antt =====
-- The steps that `buildEligibleBatchManifest` has taken when it returns.
use scalable_blockchain_voti.Prelude.{◌≡◌, refl, ap, ◌∙◌, true, List, [], ◌∷◌, map, All, subst}
use scalable_blockchain_voti.Outcome.{ok, map_result, >>=-eq-ok, >>-eq-ok, then-eq-ok, ok_inj}
use scalable_blockchain_voti.Js.Texts.{Text, lower, text_eq_iff}
use scalable_blockchain_voti.Js.Sorting.{sort_by}
use scalable_blockchain_voti.Viem.{Viem, hash_abi}
use scalable_blockchain_voti.Merkle.{merkle_root}
use scalable_blockchain_voti.Nullifiers.{NullifierAccumulator, Others, root, add_many}
use scalable_blockchain_voti.Nullifiers.Batched.{built_steps}
use scalable_blockchain_voti.Jub.{
  BabyJub, aggregate_proof_compatible_ciphertexts, digest_proof_compatible_ciphertext, assert_hex32,
}
use scalable_blockchain_voti.Compatible.{Snark}
use scalable_blockchain_voti.Eligible.{
  EligibleVotePackage, verify_eligible_vote_package_proof, assert_canonical_field,
}
use scalable_blockchain_voti.Eligible.Batches.{
  StoredEligibleVotePackage, EligibleEntry, EligibleBatchManifest, eligible_nullifiers,
  sort_eligible, check_eligible_entries, EligiblePrepared, eligible_leaf, eligible_entry,
  prepare_eligible_batch, seal_eligible_batch, build_eligible_batch_manifest,
  compute_eligible_batch_public_inputs_hash,
}

module _ (v : Viem) (snark : Snark) {F : Type 0} (jub : BabyJub F) where
  pub record IsSealed (previous : Text) (sorted : List EligibleEntry) (after : NullifierAccumulator)
      (m : EligibleBatchManifest) : Type 0 where
    pub previous_kept : m.previous_nullifier_root ≡ lower previous
    pub root_made : root v after ≡ ok m.nullifier_root
    pub nullifiers_kept : m.ballot_nullifiers ≡ eligible_nullifiers sorted
    pub digests_kept : m.package_digests ≡ map (λ entry. entry.digest) sorted
    pub leaves_made : map_result (eligible_leaf v) sorted ≡ ok m.package_leaf_hashes
    pub cid_root_made : merkle_root v m.package_leaf_hashes ≡ ok m.cid_merkle_root

  seal_eligible_batch-IsSealed :
      (election_id eligibility_root previous : Text) (prepared : EligiblePrepared)
      (after : NullifierAccumulator) (m : EligibleBatchManifest)
      → seal_eligible_batch v snark jub election_id eligibility_root previous prepared after ≡ ok m
      → IsSealed previous prepared.sorted after m
  unfolding seal_eligible_batch
  seal_eligible_batch-IsSealed election_id eligibility_root previous prepared after m h =
      let (leaves, made, h1) = >>=-eq-ok (map_result (eligible_leaf v) prepared.sorted) _ h in
      let (aggregate, _, h2) = >>=-eq-ok (aggregate_proof_compatible_ciphertexts jub _) _ h1 in
      let (_, _, h3) = >>=-eq-ok (digest_proof_compatible_ciphertext v aggregate) _ h2 in
      let (cid, cid_made, h4) = >>=-eq-ok (merkle_root v leaves) _ h3 in
      let (last, last_made, h5) = >>=-eq-ok (root v after) _ h4 in
      let (_, _, h6) = >>=-eq-ok (hash_abi v _) _ h5 in
      let (_, _, h7) =
        >>=-eq-ok (compute_eligible_batch_public_inputs_hash v _ _ _ _ _ _ _ _ _ _ _ _) _ h6 in
      subst (IsSealed previous prepared.sorted after) (ok_inj h7) (record {
        previous_kept = refl;
        root_made = last_made;
        nullifiers_kept = refl;
        digests_kept = refl;
        leaves_made = made;
        cid_root_made = cid_made;
      })

  -- What the loop has checked of an entry.
  pub record IsChecked (election_id eligibility_root key : Text) (first : EligibleVotePackage)
      (entry : EligibleEntry) : Type 0 where
    pub election_fits : entry.vote_package.election_id ≡ election_id
    pub root_fits : entry.vote_package.eligibility_root ≡ eligibility_root
    pub list_fits : entry.vote_package.candidate_list_hash ≡ first.candidate_list_hash
    pub key_fits :
        entry.vote_package.ciphertext.election_public_key_hash
        ≡ first.ciphertext.election_public_key_hash
    pub proof_verified :
        verify_eligible_vote_package_proof jub v snark entry.vote_package key ≡ ok true

  check_eligible_entries-IsChecked :
      (election_id eligibility_root key : Text) (first : EligibleVotePackage)
      (entries : List EligibleEntry)
      → check_eligible_entries v snark jub election_id eligibility_root key first entries ≡ ok tt
      → All (IsChecked election_id eligibility_root key first) entries
  unfolding check_eligible_entries
  check_eligible_entries-IsChecked election_id eligibility_root key first [] h = tt
  check_eligible_entries-IsChecked election_id eligibility_root key first (entry ∷ entries) h =
      let (_, h1) = >>-eq-ok _ _ _ h in
      let (election, h2) = >>-eq-ok _ _ _ h1 in
      let (same_root, h3) = >>-eq-ok _ _ _ h2 in
      let (list, h4) = >>-eq-ok _ _ _ h3 in
      let (same_key, h5) = >>-eq-ok _ _ _ h4 in
      let (verified, verified_is, h6) =
        >>=-eq-ok (verify_eligible_vote_package_proof jub v snark entry.vote_package key) _ h5 in
      let (accepted, h7) = >>-eq-ok verified _ _ h6 in
      (
        record {
          election_fits = (text_eq_iff _ _).0 election;
          root_fits = (text_eq_iff _ _).0 same_root;
          list_fits = (text_eq_iff _ _).0 list;
          key_fits = (text_eq_iff _ _).0 same_key;
          proof_verified = verified_is ∙ ap ok accepted;
        },
        check_eligible_entries-IsChecked election_id eligibility_root key first entries h7,
      )

  pub record IsPrepared (election_id eligibility_root previous key : Text)
      (stored : List StoredEligibleVotePackage) (before : NullifierAccumulator)
      (prepared : EligiblePrepared) : Type 0 where
    pub continues : root v before ≡ ok (lower previous)
    pub validated : List EligibleEntry
    pub validated_made : map_result (eligible_entry v snark jub) stored ≡ ok validated
    pub checked :
        All (IsChecked (lower election_id) (lower eligibility_root) key prepared.first) validated
    pub sorted_made :
        prepared.sorted ≡ sort_by (λ left right. v.locale_le left.digest right.digest) validated

  sort_eligible-eq-ok :
      (election_id eligibility_root key : Text) (validated : List EligibleEntry)
      (prepared : EligiblePrepared)
      → sort_eligible v snark jub election_id eligibility_root key validated ≡ ok prepared
      → All (IsChecked election_id eligibility_root key prepared.first) validated
        × (prepared.sorted ≡ sort_by (λ left right. v.locale_le left.digest right.digest) validated)
  unfolding sort_eligible
  sort_eligible-eq-ok election_id eligibility_root key [] prepared h = cc
  sort_eligible-eq-ok election_id eligibility_root key (entry ∷ entries) prepared h =
      let (fine, h1) =
        then-eq-ok
          (check_eligible_entries v snark jub election_id eligibility_root key entry.vote_package
            (entry ∷ entries))
          _ h in
      let checked =
        check_eligible_entries-IsChecked election_id eligibility_root key entry.vote_package
          (entry ∷ entries) fine in
      subst
        (λ p.
          All (IsChecked election_id eligibility_root key p.first) (entry ∷ entries)
          × (p.sorted
              ≡ sort_by (λ left right. v.locale_le left.digest right.digest) (entry ∷ entries)))
        (ok_inj h1) (checked, refl)

  prepare_eligible_batch-IsPrepared :
      (election_id eligibility_root previous key : Text) (stored : List StoredEligibleVotePackage)
      (before : NullifierAccumulator) (prepared : EligiblePrepared)
      → prepare_eligible_batch v snark jub election_id eligibility_root previous key stored before
        ≡ ok prepared
      → IsPrepared election_id eligibility_root previous key stored before prepared
  unfolding prepare_eligible_batch
  prepare_eligible_batch-IsPrepared election_id eligibility_root previous key stored before prepared
        h =
      let (_, h1) = then-eq-ok (assert_hex32 v election_id _) _ h in
      let (_, h2) = then-eq-ok (assert_hex32 v eligibility_root _) _ h1 in
      let (_, _, h3) = >>=-eq-ok (assert_canonical_field eligibility_root _) _ h2 in
      let (_, h4) = then-eq-ok (assert_hex32 v previous _) _ h3 in
      let (_, h5) = >>-eq-ok _ _ _ h4 in
      let (current, made, h6) = >>=-eq-ok (root v before) _ h5 in
      let (same, h7) = >>-eq-ok _ _ _ h6 in
      let (validated, each, h8) = >>=-eq-ok (map_result (eligible_entry v snark jub) stored) _ h7 in
      let (checked, sorted) =
        sort_eligible-eq-ok (lower election_id) (lower eligibility_root) key validated prepared
          h8 in
      record {
        continues = made ∙ ap ok ((text_eq_iff current (lower previous)).0 same);
        validated = validated;
        validated_made = each;
        checked = checked;
        sorted_made = sorted;
      }

  -- What a run that returns has prepared, taken and sealed.
  pub record IsBuilt (others : Others) (election_id eligibility_root previous key : Text)
      (stored : List StoredEligibleVotePackage) (before : NullifierAccumulator)
      (m : EligibleBatchManifest) (after : NullifierAccumulator) : Type 0 where
    pub ready : EligiblePrepared
    pub prepared : IsPrepared election_id eligibility_root previous key stored before ready
    pub added : NullifierAccumulator
    pub taken :
        add_many v (eligible_nullifiers ready.sorted) (others.validating before) ≡ (ok tt, added)
    pub end : others.summing added ≡ after
    pub sealed : IsSealed previous ready.sorted after m

  pub build_eligible_batch_manifest-IsBuilt :
      (others : Others) (election_id eligibility_root previous key : Text)
      (stored : List StoredEligibleVotePackage) (before : NullifierAccumulator)
      (m : EligibleBatchManifest) (after : NullifierAccumulator)
      → build_eligible_batch_manifest v snark jub others election_id eligibility_root previous key
          stored before
        ≡ (ok m, after)
      → IsBuilt others election_id eligibility_root previous key stored before m after
  unfolding build_eligible_batch_manifest
  build_eligible_batch_manifest-IsBuilt others election_id eligibility_root previous key stored
        before m after h =
      let (ready, e, added, taken, end, sealed) =
        built_steps v others
          (prepare_eligible_batch v snark jub election_id eligibility_root previous key stored
            before)
          (λ ready. eligible_nullifiers ready.sorted)
          (seal_eligible_batch v snark jub election_id eligibility_root previous) before m after
          h in
      record {
        ready = ready;
        prepared =
            prepare_eligible_batch-IsPrepared election_id eligibility_root previous key stored
              before ready e;
        added = added;
        taken = taken;
        end = end;
        sealed =
            seal_eligible_batch-IsSealed election_id eligibility_root previous ready after m sealed;
      }
