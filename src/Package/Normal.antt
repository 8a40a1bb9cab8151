-- ===== src/Package/Normal.antt =====
-- A validated vote package is its own normal form.
use scalable_blockchain_voti.Prelude.{◌≡◌, refl, sym, ap, ◌∙◌, true, arith, length, leb, ◌&&◌}
use scalable_blockchain_voti.Outcome.{
  Label, ok, guard, >>=-eq-ok, >>-eq-ok, guard-eq-ok, then-eq-ok, ok_inj,
}
use scalable_blockchain_voti.Js.Texts.{
  Text, lower, lower_idem, length-lower, text_eq_refl, text_eq_iff,
}
use scalable_blockchain_voti.Js.Sorting.{sort_texts}
use scalable_blockchain_voti.Viem.{Viem, is_bytes32, assert_bytes32, assert_hex_bytes}
use scalable_blockchain_voti.Viem.Laws.{Laws, lower_bytes32, assert_bytes32-eq-ok}
use scalable_blockchain_voti.Package.Points.{exact_keys, texts_eq}
use scalable_blockchain_voti.Package.Ciphertext.{
  BallotCiphertext, ciphertext_keys, validate_ciphertext,
}
use scalable_blockchain_voti.Package.Validation.{
  VotePackage, ballot_proof_system, vote_package_keys, ballot_proof_keys,
  compute_ballot_public_inputs_hash, normalized_package, validate_vote_package,
}
use scalable_blockchain_voti.Package.Accepted.{
  texts_eq_refl, validate_ciphertext-eq-ok, validate_ciphertext_idem,
}

module _ (v : Viem) where
  -- What every accepted package satisfies, with the ciphertext that its validation returned.
  pub record IsPackage (p : VotePackage) (c : BallotCiphertext) : Type 0 where
    pub election_fits : is_bytes32 v p.election_id ≡ true
    pub list_fits : is_bytes32 v p.candidate_list_hash ≡ true
    pub nullifier_fits : is_bytes32 v p.ballot_nullifier ≡ true
    pub proof_fits :
        (v.is_hex p.ballot_validity_proof.proof && leb 4 (length p.ballot_validity_proof.proof))
        ≡ true
    pub inputs_fit : is_bytes32 v p.ballot_validity_proof.public_inputs_hash ≡ true
    pub validated : validate_ciphertext v p.ciphertext ≡ ok c
    pub bound :
        compute_ballot_public_inputs_hash v p.election_id p.candidate_list_hash p.ballot_nullifier c
        ≡ ok (lower p.ballot_validity_proof.public_inputs_hash)

  hex_bytes_fit :
      (s : Text) (label : Label)
      → assert_hex_bytes v s label ≡ ok tt
      → (v.is_hex s && leb 4 (length s)) ≡ true
  unfolding assert_hex_bytes
  hex_bytes_fit s label h = guard-eq-ok _ _ h

  pub validate_vote_package-eq-ok :
      (p q : VotePackage)
      → validate_vote_package v p ≡ ok q
      → (c : BallotCiphertext) × IsPackage p c × (normalized_package v p c ≡ q)
  unfolding validate_vote_package
  validate_vote_package-eq-ok p q h =
      let (_, h1) = then-eq-ok (exact_keys p.keys vote_package_keys _) _ h in
      let (_, h2) = >>-eq-ok _ _ _ h1 in
      let (election, h3) = assert_bytes32-eq-ok v p.election_id _ _ h2 in
      let (list, h4) = assert_bytes32-eq-ok v p.candidate_list_hash _ _ h3 in
      let (nullifier, h5) = assert_bytes32-eq-ok v p.ballot_nullifier _ _ h4 in
      let (_, h6) = then-eq-ok (exact_keys p.ciphertext.keys ciphertext_keys _) _ h5 in
      let (c, valid, h7) = >>=-eq-ok (validate_ciphertext v p.ciphertext) _ h6 in
      let (_, h8) = then-eq-ok (exact_keys p.ballot_validity_proof.keys ballot_proof_keys _) _ h7 in
      let (_, h9) = >>-eq-ok _ _ _ h8 in
      let (proof, h10) = then-eq-ok (assert_hex_bytes v p.ballot_validity_proof.proof _) _ h9 in
      let (inputs, h11) =
        assert_bytes32-eq-ok v p.ballot_validity_proof.public_inputs_hash _ _ h10 in
      let (expected, made, h12) =
        >>=-eq-ok
          (compute_ballot_public_inputs_hash v p.election_id p.candidate_list_hash
            p.ballot_nullifier c)
          _ h11 in
      let (same, h13) = >>-eq-ok _ _ _ h12 in
      (
        c,
        record {
          election_fits = election;
          list_fits = list;
          nullifier_fits = nullifier;
          proof_fits = hex_bytes_fit p.ballot_validity_proof.proof _ proof;
          inputs_fit = inputs;
          validated = valid;
          bound = made ∙ ap ok (sym ((text_eq_iff _ expected).0 same));
        },
        ok_inj h13,
      )

  digest_lowered :
      Laws v
      → (p : VotePackage) (c : BallotCiphertext) → IsPackage p c
      → compute_ballot_public_inputs_hash v
          (lower p.election_id)
          (lower p.candidate_list_hash)
          (lower p.ballot_nullifier)
          c
        ≡ compute_ballot_public_inputs_hash v p.election_id p.candidate_list_hash p.ballot_nullifier
            c
  unfolding compute_ballot_public_inputs_hash assert_bytes32 guard
  digest_lowered laws p c h =
      rw
        (
          h.election_fits,
          h.list_fits,
          h.nullifier_fits,
          lower_bytes32 v laws p.election_id h.election_fits,
          lower_bytes32 v laws p.candidate_list_hash h.list_fits,
          lower_bytes32 v laws p.ballot_nullifier h.nullifier_fits,
          lower_idem p.election_id,
          lower_idem p.candidate_list_hash,
          lower_idem p.ballot_nullifier,
        )
        refl

  hex_lowered :
      Laws v
      → (s : Text) → (v.is_hex s && leb 4 (length s)) ≡ true
      → (v.is_hex (lower s) && leb 4 (length s)) ≡ true
  hex_lowered laws s h = ground (arith, laws.lower_hex s)

  normal_accepted :
      Laws v
      → (p : VotePackage) (c : BallotCiphertext) → IsPackage p c
      → validate_vote_package v (normalized_package v p c) ≡ ok (normalized_package v p c)
  unfolding validate_vote_package exact_keys assert_bytes32 assert_hex_bytes guard
  normal_accepted laws p c h =
      let proof = p.ballot_validity_proof.proof in
      let inputs = p.ballot_validity_proof.public_inputs_hash in
      rw
        (
          texts_eq_refl (sort_texts vote_package_keys),
          lower_bytes32 v laws p.election_id h.election_fits,
          lower_bytes32 v laws p.candidate_list_hash h.list_fits,
          lower_bytes32 v laws p.ballot_nullifier h.nullifier_fits,
          keys_again,
          again,
          texts_eq_refl (sort_texts ballot_proof_keys),
          text_eq_refl ballot_proof_system,
          length-lower proof,
          hex_lowered laws proof h.proof_fits,
          lower_bytes32 v laws inputs h.inputs_fit,
          digest_lowered laws p c h,
          h.bound,
          lower_idem inputs,
          text_eq_refl (lower inputs),
          lower_idem p.election_id,
          lower_idem p.candidate_list_hash,
          lower_idem p.ballot_nullifier,
          lower_idem proof,
        )
        refl
    where
      again : validate_ciphertext v c ≡ ok c
      again = validate_ciphertext_idem v laws p.ciphertext c h.validated

      keys_again : texts_eq (sort_texts c.keys) (sort_texts ciphertext_keys) ≡ true
      keys_again = (validate_ciphertext-eq-ok v c again).0.keys_fit

  -- A package that `validateVotePackage` returned it accepts again, and returns as it is: a stored
  -- package can be read back and checked any number of times.
  pub validate_vote_package_idem :
      Laws v
      → (p q : VotePackage) → validate_vote_package v p ≡ ok q
      → validate_vote_package v q ≡ ok q
  validate_vote_package_idem laws p q h =
      let (c, valid, e) = validate_vote_package-eq-ok p q h in
      rw (← e) (normal_accepted laws p c valid)
