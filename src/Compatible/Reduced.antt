-- ===== src/Compatible/Reduced.antt =====
-- `validateProofCompatibleVotePackage` reads the nullifier modulo the scalar field, and the
-- accumulator reads it as a string.
use scalable_blockchain_voti.Prelude.{◌≡◌, refl, ap, ◌∙◌, subst, true, [], ◌∷◌, ◌++◌, ◌==◌}
use scalable_blockchain_voti.Outcome.{
  ok, guard, guard-eq-ok, >>=-eq-ok, >>-eq-ok, then-eq-ok, ok_inj,
}
use scalable_blockchain_voti.Js.Texts.{Text, lower, lower_idem}
use scalable_blockchain_voti.Js.Sets.{IsUnique}
use scalable_blockchain_voti.Viem.{Viem, is_bytes32}
use scalable_blockchain_voti.Viem.Laws.{Laws, lower_bytes32}
use scalable_blockchain_voti.Nullifiers.{NullifierAccumulator, add_many}
use scalable_blockchain_voti.Nullifiers.Adding.{IsValid, add_many_iff}
use scalable_blockchain_voti.Eligibility.Commitments.{bytes32_to_snark_field}
use scalable_blockchain_voti.Jub.{
  BabyJub, CiphertextJson, only_keys, assert_hex32, validate_ciphertext_json,
}
use scalable_blockchain_voti.Compatible.{
  Snark, ProofCompatibleVotePackage, proof_compatible_vote_package_version,
  proof_compatible_ballot_proof_system, check_proof_json, check_compatible_statement,
  validate_proof_compatible_vote_package,
}

abbrev pub with_nullifier : ProofCompatibleVotePackage → Text → ProofCompatibleVotePackage
with_nullifier p nullifier = record p { ballot_nullifier = nullifier }

module _ (v : Viem) (snark : Snark) {F : Type 0} (jub : BabyJub F) where
  check_compatible_statement-reduced :
      (p : ProofCompatibleVotePackage) (nullifier : Text) (ciphertext : CiphertextJson)
      → bytes32_to_snark_field v nullifier ≡ bytes32_to_snark_field v p.ballot_nullifier
      → check_compatible_statement jub v snark (with_nullifier p nullifier) ciphertext
        ≡ check_compatible_statement jub v snark p ciphertext
  unfolding check_compatible_statement
  check_compatible_statement-reduced p nullifier ciphertext same = rw same refl

  -- A package that is accepted is accepted with any other 32-byte nullifier that has the same
  -- remainder modulo the scalar field in place of its own, and comes back with that one in lower
  -- case: the one proof is good for both.
  pub validate_proof_compatible_vote_package-reduced :
      (p out : ProofCompatibleVotePackage) (nullifier : Text)
      → validate_proof_compatible_vote_package jub v snark p ≡ ok out
      → is_bytes32 v nullifier ≡ true
      → bytes32_to_snark_field v nullifier ≡ bytes32_to_snark_field v p.ballot_nullifier
      → validate_proof_compatible_vote_package jub v snark (with_nullifier p nullifier)
        ≡ ok (with_nullifier out (lower nullifier))
  unfolding validate_proof_compatible_vote_package guard
  validate_proof_compatible_vote_package-reduced p out nullifier h well same =
      let (keys, h1) = then-eq-ok (only_keys p.keys _ _) _ h in
      let (version, h2) = >>-eq-ok (p.version == proof_compatible_vote_package_version) _ _ h1 in
      let (election, h3) = then-eq-ok (assert_hex32 v p.election_id _) _ h2 in
      let (list, h4) = then-eq-ok (assert_hex32 v p.candidate_list_hash _) _ h3 in
      let (_, h5) = then-eq-ok (assert_hex32 v p.ballot_nullifier _) _ h4 in
      let other : assert_hex32 v nullifier "ballotNullifier" ≡ ok tt =
        unfold assert_hex32 guard in rw well refl in
      let (commitment, h6) = then-eq-ok (assert_hex32 v p.package_commitment _) _ h5 in
      let (ciphertext, valid, h7) = >>=-eq-ok (validate_ciphertext_json v _ p.ciphertext) _ h6 in
      let (proof, h8) =
        then-eq-ok
          (check_proof_json v _ proof_compatible_ballot_proof_system p.ballot_validity_proof) _
          h7 in
      let (statement, h9) = then-eq-ok (check_compatible_statement jub v snark p ciphertext) _ h8 in
      let statement' = check_compatible_statement-reduced p nullifier ciphertext same ∙ statement in
      rw (keys, version, election, list, other, commitment, valid, proof, statement')
        (ap (λ x. ok (with_nullifier x (lower nullifier))) (ok_inj h9))

  accepted_nullifier :
      Laws v
      → (p out : ProofCompatibleVotePackage)
      → validate_proof_compatible_vote_package jub v snark p ≡ ok out
      → (lower out.ballot_nullifier ≡ out.ballot_nullifier)
        × (is_bytes32 v out.ballot_nullifier ≡ true)
  unfolding validate_proof_compatible_vote_package guard
  accepted_nullifier laws p out h =
      let (_, h1) = then-eq-ok (only_keys p.keys _ _) _ h in
      let (_, h2) = >>-eq-ok (p.version == proof_compatible_vote_package_version) _ _ h1 in
      let (_, h3) = then-eq-ok (assert_hex32 v p.election_id _) _ h2 in
      let (_, h4) = then-eq-ok (assert_hex32 v p.candidate_list_hash _) _ h3 in
      let (well, h5) = then-eq-ok (assert_hex32 v p.ballot_nullifier _) _ h4 in
      let good : is_bytes32 v p.ballot_nullifier ≡ true =
        unfold assert_hex32 in guard-eq-ok (is_bytes32 v p.ballot_nullifier) _ well in
      let (_, h6) = then-eq-ok (assert_hex32 v p.package_commitment _) _ h5 in
      let (_, _, h7) = >>=-eq-ok (validate_ciphertext_json v _ p.ciphertext) _ h6 in
      let (_, h8) = then-eq-ok (check_proof_json v _ _ p.ballot_validity_proof) _ h7 in
      let (_, h9) = then-eq-ok (check_compatible_statement jub v snark p _) _ h8 in
      subst (λ n. (lower n ≡ n) × (is_bytes32 v n ≡ true))
        (ap (λ x. x.ballot_nullifier) (ok_inj h9))
        (lower_idem p.ballot_nullifier, lower_bytes32 v laws p.ballot_nullifier good)

  -- One ballot can be counted twice: of an accepted package and another 32-byte nullifier with the
  -- same remainder modulo the scalar field, the package with the other nullifier is accepted too,
  -- and a valid accumulator that has neither of the two different nullifiers takes both.
  pub proof_compatible_ballot_twice :
      Laws v
      → (p out : ProofCompatibleVotePackage) (nullifier : Text)
      → (accumulator : NullifierAccumulator) → IsValid v accumulator
      → validate_proof_compatible_vote_package jub v snark p ≡ ok out
      → is_bytes32 v nullifier ≡ true
      → bytes32_to_snark_field v nullifier ≡ bytes32_to_snark_field v p.ballot_nullifier
      → IsUnique (accumulator.seen ++ out.ballot_nullifier ∷ lower nullifier ∷ [])
      → (validate_proof_compatible_vote_package jub v snark (with_nullifier p nullifier)
          ≡ ok (with_nullifier out (lower nullifier)))
        × ((add_many v (out.ballot_nullifier ∷ lower nullifier ∷ []) accumulator).0 ≡ ok tt)
  proof_compatible_ballot_twice laws p out nullifier accumulator fine h well same unique =
      let (low, fits) = accepted_nullifier laws p out h in
      (
        validate_proof_compatible_vote_package-reduced p out nullifier h well same,
        (add_many_iff v laws (out.ballot_nullifier ∷ lower nullifier ∷ []) accumulator fine).1 (
          (fits, (lower_bytes32 v laws nullifier well, tt)),
          rw (low, lower_idem nullifier) unique,
        ),
      )
