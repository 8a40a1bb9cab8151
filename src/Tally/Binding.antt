-- ===== src/Tally/Binding.antt =====
-- What a tally's hashes determine.
use scalable_blockchain_voti.Prelude.{
  ℕ, ◌+◌, ◌≡◌, refl, sym, ap, ◌∙◌, ◌⊎◌, inl, inr, List, [], ◌∷◌, map, length, ltb, leb, ◌==◌,
  String, true, All, subst, cons_head, cons_tail,
}
use scalable_blockchain_voti.Outcome.{ok, >>=-eq-ok, >>-eq-ok, ok_inj}
use scalable_blockchain_voti.Js.Texts.{Text, lower, lower_idem, text_eq, text_eq_iff}
use scalable_blockchain_voti.Js.Numbers.{Number, is_integer, at_least, to_natural}
use scalable_blockchain_voti.Viem.{
  AbiValue, bytes32, bytes32_list, uint_list, Viem, is_bytes32, domain_hash, hash_abi,
}
use scalable_blockchain_voti.Viem.Laws.{
  Laws, IsWell, lower_bytes32, domain_hash-IsDigest, IsDigest-of_hash_abi, IsInjective, Collision,
  hash_abi_binds, assert_bytes32-eq-ok,
}
use scalable_blockchain_voti.Package.Ciphertext.{
  BallotCiphertext, validate_ciphertext, digest_ballot_ciphertext,
}
use scalable_blockchain_voti.Batch.{normalize_all}
use scalable_blockchain_voti.Tally.{
  TallyResult, TallyProofInputs, check_counts, compute_tally_result_hash,
  compute_tally_proof_public_inputs_hash,
}

check_counts-eq-ok :
    (i : ℕ) (counts : List Number) (out : List ℕ)
    → check_counts i counts ≡ ok out
    → out ≡ map to_natural counts
unfolding check_counts
check_counts-eq-ok i [] out h = sym (ok_inj h)
check_counts-eq-ok i (c ∷ counts) out h =
    let (_, h1) = >>-eq-ok (is_integer c) _ _ h in
    let (_, h2) = >>-eq-ok (at_least 0 c) _ _ h1 in
    let (_, h3) = >>-eq-ok (leb (to_natural c) 4294967295) _ _ h2 in
    let (rest, done, h4) = >>=-eq-ok (check_counts (i + 1) counts) _ h3 in
    sym (ok_inj h4) ∙ ap (λ l. to_natural c ∷ l) (check_counts-eq-ok (i + 1) counts rest done)

abbrev bytes_of : AbiValue → Text
bytes_of (bytes32 s) = s
bytes_of _ = []

abbrev numbers_of : AbiValue → List ℕ
numbers_of (uint_list width l) = l
numbers_of _ = []

abbrev texts_of : AbiValue → List Text
texts_of (bytes32_list l) = l
texts_of _ = []

module _ (v : Viem) where
  normalize_all-bytes32 :
      Laws v
      → (name : String) (i : ℕ) (values out : List Text) → normalize_all v name i values ≡ ok out
      → All (λ s. is_bytes32 v s ≡ true) out
  unfolding normalize_all
  normalize_all-bytes32 laws name i [] out h = subst (All _) (ok_inj h) tt
  normalize_all-bytes32 laws name i (s ∷ values) out h =
      let (well, h1) = assert_bytes32-eq-ok v s _ _ h in
      let (rest, done, h2) = >>=-eq-ok (normalize_all v name (i + 1) values) _ h1 in
      subst (All (λ s. is_bytes32 v s ≡ true)) (ok_inj h2)
        (lower_bytes32 v laws s well, normalize_all-bytes32 laws name (i + 1) values rest done)

  digest-bytes32 :
      Laws v
      → (c : BallotCiphertext) (digest : Text) → digest_ballot_ciphertext v c ≡ ok digest
      → is_bytes32 v digest ≡ true
  unfolding digest_ballot_ciphertext
  digest-bytes32 laws c digest h =
      let (_, _, h1) = >>=-eq-ok (validate_ciphertext v c) _ h in
      (IsDigest-of_hash_abi v laws _ digest h1).well_formed

  abbrev hashed_values : TallyResult → Text → List ℕ → List Text → List AbiValue
  hashed_values t digest counts shares =
      bytes32 (domain_hash v "SVB_TALLY_RESULT_V1")
      ∷ bytes32 (lower t.election_id)
      ∷ bytes32 (lower t.candidate_list_hash)
      ∷ bytes32 (lower t.election_public_key_hash)
      ∷ bytes32 digest
      ∷ uint_list 32 counts
      ∷ bytes32_list shares
      ∷ []

  -- The values that are hashed.
  record IsHashed (t : TallyResult) (hash : Text) : Type 0 where
    digest : Text
    shares : List Text
    counts : List ℕ
    counted : counts ≡ map to_natural t.tally_counts
    well : All (IsWell v) (hashed_values t digest counts shares)
    made : hash_abi v (hashed_values t digest counts shares) ≡ ok hash

  compute_tally_result_hash-IsHashed :
      Laws v
      → (t : TallyResult) (hash : Text) → compute_tally_result_hash v t ≡ ok hash
      → IsHashed t hash
  unfolding compute_tally_result_hash
  compute_tally_result_hash-IsHashed laws t hash h =
      let (election, h1) = assert_bytes32-eq-ok v t.election_id _ _ h in
      let (candidates, h2) = assert_bytes32-eq-ok v t.candidate_list_hash _ _ h1 in
      let (key, h3) = assert_bytes32-eq-ok v t.election_public_key_hash _ _ h2 in
      let (c, _, h4) = >>=-eq-ok (validate_ciphertext v t.aggregate_ciphertext) _ h3 in
      let (_, h5) = >>-eq-ok (text_eq c.election_public_key_hash _) _ _ h4 in
      let (_, h6) = >>-eq-ok (ltb 1 (length t.tally_counts)) _ _ h5 in
      let (counts, checked, h7) = >>=-eq-ok (check_counts 0 t.tally_counts) _ h6 in
      let (shares, normal, h8) = >>=-eq-ok (normalize_all v _ 0 t.decryption_share_digests) _ h7 in
      let (_, h9) = >>-eq-ok (ltb 0 (length shares)) _ _ h8 in
      let (digest, digested, h10) = >>=-eq-ok (digest_ballot_ciphertext v c) _ h9 in
      record {
        digest = digest;
        shares = shares;
        counts = counts;
        counted = check_counts-eq-ok 0 t.tally_counts counts checked;
        well = (
          (domain_hash-IsDigest v laws "SVB_TALLY_RESULT_V1").well_formed,
          (
            lower_bytes32 v laws t.election_id election,
            (
              lower_bytes32 v laws t.candidate_list_hash candidates,
              (
                lower_bytes32 v laws t.election_public_key_hash key,
                (
                  digest-bytes32 laws c digest digested,
                  (
                    tt,
                    (normalize_all-bytes32 laws _ 0 t.decryption_share_digests shares normal, tt),
                  ),
                ),
              ),
            ),
          ),
        );
        made = h10;
      }

  -- Two tallies with one result hash are of the same election and candidates, up to case, and have
  -- the same counts; or keccak256 collides, at inputs that the proof gives.
  pub compute_tally_result_hash_binds :
      Laws v
      → IsInjective v
      → (s t : TallyResult) (hash : Text) → compute_tally_result_hash v s ≡ ok hash
      → compute_tally_result_hash v t ≡ ok hash
      → ((map to_natural s.tally_counts ≡ map to_natural t.tally_counts)
          × (lower s.election_id ≡ lower t.election_id)
          × (lower s.candidate_list_hash ≡ lower t.candidate_list_hash))
        ⊎ Collision v
  compute_tally_result_hash_binds laws inj s t hash hs ht =
      let a = compute_tally_result_hash-IsHashed laws s hash hs in
      let b = compute_tally_result_hash-IsHashed laws t hash ht in
      elim (hash_abi_binds v inj _ _ hash refl a.well b.well a.made b.made) [
        | inr c ↦ inr c
        | inl e ↦
            let e1 = cons_tail e in
            let e2 = cons_tail e1 in
            let e5 = cons_tail (cons_tail (cons_tail e2)) in
            inl (
              sym a.counted ∙ ap numbers_of (cons_head e5) ∙ b.counted,
              sym (lower_idem s.election_id)
                  ∙ ap bytes_of (cons_head e1)
                  ∙ lower_idem t.election_id,
              sym (lower_idem s.candidate_list_hash)
                  ∙ ap bytes_of (cons_head e2)
                  ∙ lower_idem t.candidate_list_hash,
            )
      ]

  -- When `computeTallyProofPublicInputsHash` returns, the result hash that it was given is, in lower
  -- case, the one that `computeTallyResultHash` returns for the same fields.
  pub tally_proof_of_result :
      (p : TallyProofInputs) (hash : Text)
      → compute_tally_proof_public_inputs_hash v p ≡ ok hash
      → compute_tally_result_hash v p.tally ≡ ok (lower p.result_hash)
  unfolding compute_tally_proof_public_inputs_hash
  tally_proof_of_result p hash h =
      let (_, h1) = assert_bytes32-eq-ok v p.tally.election_id _ _ h in
      let (_, h2) = assert_bytes32-eq-ok v p.tally.candidate_list_hash _ _ h1 in
      let (_, h3) = assert_bytes32-eq-ok v p.tally.election_public_key_hash _ _ h2 in
      let (_, h4) = assert_bytes32-eq-ok v p.result_hash _ _ h3 in
      let (ms, _, h5) = >>=-eq-ok (normalize_all v _ 0 p.accepted_batch_manifest_digests) _ h4 in
      let (is, _, h6) =
        >>=-eq-ok (normalize_all v _ 0 p.accepted_batch_public_inputs_hashes) _ h5 in
      let (_, h7) = >>-eq-ok (length ms == length is) _ _ h6 in
      let (_, h8) = >>-eq-ok (ltb 0 (length ms)) _ _ h7 in
      let (result, made, h9) = >>=-eq-ok (compute_tally_result_hash v p.tally) _ h8 in
      let (same, _) = >>-eq-ok (text_eq result (lower p.result_hash)) _ _ h9 in
      made ∙ ap ok ((text_eq_iff result (lower p.result_hash)).0 same)
