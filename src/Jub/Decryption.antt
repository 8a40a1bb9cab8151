-- ===== src/Jub/Decryption.antt =====
-- The verification of the decryption shares of packages/crypto/src/proofCompatibleThreshold.ts, and
-- the decryption with them.
use scalable_blockchain_voti.Prelude.{
  ℕ, ◌+◌, Bool, true, false, not, ◌&&◌, List, [], ◌∷◌, map, length, get_elem?, take, leb, ◌==◌,
}
use scalable_blockchain_voti.Outcome.{
  at, type_error, unlabelled, assertion, Result, ok, err, guard, map_result, ◌>>=◌, ◌>>◌,
}
use scalable_blockchain_voti.Js.Texts.{text_eq}
use scalable_blockchain_voti.Viem.{Viem}
use scalable_blockchain_voti.Dkg.Coordinator.{required}
use scalable_blockchain_voti.Eligibility.Commitments.{proof_compatible_candidate_count}
use scalable_blockchain_voti.Elgamal.{range}
use scalable_blockchain_voti.Threshold.Shares.{has_number}
use scalable_blockchain_voti.Jub.{BabyJub, CiphertextJson, to_field_point, same_point, find_message}
use scalable_blockchain_voti.Jub.Keys.{assert_scalar, subgroup_lagrange}
use scalable_blockchain_voti.Jub.Shares.{
  JubDecryptionShare, proof_compatible_threshold_share_scheme, big_int, coordinates_of,
  jub_challenge,
}

-- the `catch` of the verification
abbrev jub_caught : Result Bool → Bool
jub_caught (ok verified) = verified
jub_caught (err e) = false

unfoldable pub all_different : List ℕ → Bool
all_different [] = true
all_different (n ∷ ns) = not (has_number n ns) && all_different ns

module _ {F : Type 0} (v : Viem) (jub : BabyJub F) where
  -- one round of the loop, which throws where an equation fails
  unfoldable pub verify_jub_pair : CiphertextJson → JubDecryptionShare → ℕ → Result (Unit {0})
  verify_jub_pair ciphertext share index = do
    ciphertext_point ← required (get_elem? ciphertext.c1 index) type_error
    share_point ← required (get_elem? share.decryption_share_points index) type_error
    proof ← required (get_elem? share.proofs index) type_error
    challenge ←
        jub_challenge v share.election_public_key_hash share.trustee_index
          share.trustee_public_share ciphertext_point share_point proof.commitment_to_generator
          proof.commitment_to_ciphertext
    answer ← big_int proof.response
    response ← assert_scalar answer (at "response" index)
    guard
        (same_point jub (jub.mul_point_escalar jub.base8 response) (
          jub.add_point (to_field_point jub proof.commitment_to_generator)
            (jub.mul_point_escalar (to_field_point jub share.trustee_public_share) challenge)))
        (assertion "generator DLEQ equation failed")
    guard
        (same_point jub (jub.mul_point_escalar (to_field_point jub ciphertext_point) response) (
          jub.add_point (to_field_point jub proof.commitment_to_ciphertext)
            (jub.mul_point_escalar (to_field_point jub share_point) challenge)))
        (assertion "ciphertext DLEQ equation failed")

  unfoldable pub verify_jub_pairs : CiphertextJson → JubDecryptionShare → List ℕ → Result Bool
  verify_jub_pairs ciphertext share [] = ok true
  verify_jub_pairs ciphertext share (index ∷ rest) = do
    verify_jub_pair ciphertext share index
    verify_jub_pairs ciphertext share rest

  -- the body of the `try`
  unfoldable pub verify_jub_share : CiphertextJson → JubDecryptionShare → Result Bool
  verify_jub_share ciphertext share = do
    guard (text_eq share.scheme proof_compatible_threshold_share_scheme) unlabelled
    guard (text_eq share.election_public_key_hash ciphertext.election_public_key_hash) unlabelled
    guard (length share.decryption_share_points == proof_compatible_candidate_count) unlabelled
    guard (length share.proofs == proof_compatible_candidate_count) unlabelled
    verify_jub_pairs ciphertext share (range 0 proof_compatible_candidate_count)

  unfoldable pub verify_proof_compatible_decryption_share :
      CiphertextJson → JubDecryptionShare → Bool
  verify_proof_compatible_decryption_share ciphertext share =
      jub_caught (verify_jub_share ciphertext share)

  unfoldable pub check_jub_shares : CiphertextJson → List JubDecryptionShare → Result (Unit {0})
  check_jub_shares ciphertext [] = ok tt
  check_jub_shares ciphertext (share ∷ shares) = do
    guard (verify_proof_compatible_decryption_share ciphertext share)
        (assertion "invalid share proof")
    check_jub_shares ciphertext shares

  -- the loop over the selected shares, from the identity
  unfoldable pub combine_jub : List ℕ → ℕ → List JubDecryptionShare → F × F → Result (F × F)
  combine_jub indexes candidate [] sum = ok sum
  combine_jub indexes candidate (share ∷ shares) sum = do
    coefficient ← subgroup_lagrange share.trustee_index indexes
    point ← required (get_elem? share.decryption_share_points candidate) type_error
    combine_jub indexes candidate shares
        (jub.add_point sum (jub.mul_point_escalar (to_field_point jub point) coefficient))

  -- one round of the loop over the candidates
  unfoldable pub count_jub : CiphertextJson → List JubDecryptionShare → ℕ → ℕ → Result ℕ
  count_jub ciphertext selected max_votes candidate = do
    combined ←
        combine_jub (map (λ share. share.trustee_index) selected) candidate selected
          (jub.e 0, jub.e 1)
    second ← required (get_elem? ciphertext.c2 candidate) type_error
    _ ← map_result big_int (coordinates_of (second ∷ []))
    let message = jub.add_point (to_field_point jub second) (jub.neg combined.0, combined.1)
    required (find_message jub message (range 0 (max_votes + 1)))
        (assertion "count is out of range")

  unfoldable pub decrypt_proof_compatible_tally_with_shares :
      CiphertextJson → List JubDecryptionShare → (threshold max_votes : ℕ) → Result (List ℕ)
  decrypt_proof_compatible_tally_with_shares ciphertext shares threshold max_votes = do
    guard (leb threshold (length shares)) (assertion "insufficient shares")
    let selected = take threshold shares
    guard (all_different (map (λ share. share.trustee_index) selected)) unlabelled
    check_jub_shares ciphertext selected
    map_result (count_jub ciphertext selected max_votes) (range 0 proof_compatible_candidate_count)
