-- ===== src/Jub/Opened.antt =====
-- What `decryptProofCompatibleTallyWithShares` has checked when it returns.
use scalable_blockchain_voti.Prelude.{
  ℕ, zero, suc, ◌+◌, ◌<◌, ◌≤◌, ◌≡◌, ap, ◌∙◌, subst, true, false, Bool-cases, inl, inr, some,
  some_inj, List, [], ◌∷◌, map, length, get_elem?, take, All, arith, leb, leb→le, ◌==◌,
}
use scalable_blockchain_voti.Outcome.{ok, map_result, >>=-eq-ok, >>-eq-ok, then-eq-ok}
use scalable_blockchain_voti.Outcome.Mapping.{map_result_at}
use scalable_blockchain_voti.Viem.{Viem}
use scalable_blockchain_voti.Dkg.Recorded.{required-eq-ok}
use scalable_blockchain_voti.Eligibility.Commitments.{proof_compatible_candidate_count}
use scalable_blockchain_voti.Elgamal.{range}
use scalable_blockchain_voti.Elgamal.Pairs.{get_elem?-range}
use scalable_blockchain_voti.Jub.{
  BabyJub, DecimalPoint, CiphertextJson, to_field_point, same_point, find_message,
}
use scalable_blockchain_voti.Jub.Shares.{JubDecryptionShare, big_int, coordinates_of}
use scalable_blockchain_voti.Jub.Decryption.{
  all_different, verify_proof_compatible_decryption_share, check_jub_shares, combine_jub, count_jub,
  decrypt_proof_compatible_tally_with_shares,
}

module _ {F : Type 0} (v : Viem) (jub : BabyJub F) where
  -- The least multiple of the base that the message is, from a first number on.
  unfoldable pub IsLeast : F × F → ℕ → ℕ → Type 0
  IsLeast message from count =
      (same_point jub message (jub.mul_point_escalar jub.base8 count) ≡ true)
      × ((n : ℕ)
          → from ≤ n
          → n < count
          → same_point jub message (jub.mul_point_escalar jub.base8 n) ≡ false)

  find_message-IsLeast :
      (message : F × F) (from size : ℕ) {count : ℕ}
      → find_message jub message (range from size) ≡ some count
      → (from ≤ count) × (count < from + size) × IsLeast message from count
  unfolding find_message range IsLeast
  find_message-IsLeast message from zero h = cc h
  find_message-IsLeast message from (suc size) {count} h =
      elim (Bool-cases (same_point jub message (jub.mul_point_escalar jub.base8 from))) [
        | inl same ↦
            let e : from ≡ count = some_inj (rw same at h) in
            (
              omega (arith, e),
              omega (arith, e),
              (
                subst (λ n. same_point jub message (jub.mul_point_escalar jub.base8 n) ≡ true) e
                    same,
                λ n low high. absurd (omega (arith, e, low, high)),
              ),
            )
        | inr other ↦
            let (low, high, (found, least)) =
              find_message-IsLeast message (from + 1) size (rw other at h) in
            (
              omega (arith, low),
              omega (arith, high),
              (
                found,
                λ n from_n n_count. elim (Bool-cases (from == n)) [
                  | inl e ↦ let here : from ≡ n = ground (arith, e) in rw (← here) other
                  | inr differ ↦ least n (ground (arith, differ, from_n)) n_count
                ],
              ),
            )
      ]

  check_jub_shares-verified :
      (ciphertext : CiphertextJson) (shares : List JubDecryptionShare)
      → check_jub_shares v jub ciphertext shares ≡ ok tt
      → All (λ share. verify_proof_compatible_decryption_share v jub ciphertext share ≡ true) shares
  unfolding check_jub_shares
  check_jub_shares-verified ciphertext [] h = tt
  check_jub_shares-verified ciphertext (share ∷ shares) h =
      let (verified, rest) = >>-eq-ok _ _ _ h in
      (verified, check_jub_shares-verified ciphertext shares rest)

  -- A count of a candidate: the least multiple of the base that its second point, less what the
  -- shares combine to, is.
  pub record IsOpened (ciphertext : CiphertextJson) (selected : List JubDecryptionShare)
      (max_votes candidate count : ℕ) : Type 0 where
    pub combined : F × F
    pub second : DecimalPoint
    pub combined_is :
        combine_jub v jub
          (map (λ share. share.trustee_index) selected)
          candidate
          selected
          (jub.e 0, jub.e 1)
        ≡ ok combined
    pub second_there : get_elem? ciphertext.c2 candidate ≡ some second
    pub small : count ≤ max_votes
    pub is_least :
        IsLeast (jub.add_point (to_field_point jub second) (jub.neg combined.0, combined.1)) 0 count

  count_jub-IsOpened :
      (ciphertext : CiphertextJson) (selected : List JubDecryptionShare)
      (max_votes candidate count : ℕ)
      → count_jub v jub ciphertext selected max_votes candidate ≡ ok count
      → IsOpened ciphertext selected max_votes candidate count
  unfolding count_jub
  count_jub-IsOpened ciphertext selected max_votes candidate count h =
      let (combined, made, h1) = >>=-eq-ok (combine_jub v jub _ candidate selected _) _ h in
      let (second, there, h2) = >>=-eq-ok _ _ h1 in
      let (_, _, h3) = >>=-eq-ok (map_result big_int (coordinates_of (second ∷ []))) _ h2 in
      let (_, high, found) = find_message-IsLeast _ 0 (max_votes + 1) (required-eq-ok _ _ h3) in
      record {
        combined = combined;
        second = second;
        combined_is = made;
        second_there = required-eq-ok _ _ there;
        small = omega (arith, high);
        is_least = found;
      }

  -- When `decryptProofCompatibleTallyWithShares` returns, there were at least as many shares as the
  -- threshold, and the first of them, as many as the threshold, have different trustees and are each
  -- verified by `verifyProofCompatibleDecryptionShare`; the count of each of the four candidates is
  -- at most the largest that was asked for, and is the least multiple of the base that the second
  -- point of the candidate, less what those shares combine to, is.
  pub decrypt_proof_compatible_tally_with_shares-verified :
      (ciphertext : CiphertextJson) (shares : List JubDecryptionShare) (threshold max_votes : ℕ)
      (counts : List ℕ)
      → decrypt_proof_compatible_tally_with_shares v jub ciphertext shares threshold max_votes
        ≡ ok counts
      → (threshold ≤ length shares)
        × (all_different (map (λ share. share.trustee_index) (take threshold shares)) ≡ true)
        × All
            (λ share. verify_proof_compatible_decryption_share v jub ciphertext share ≡ true)
            (take threshold shares)
        × ((i : ℕ)
            → i < proof_compatible_candidate_count
            → (count : ℕ) × (get_elem? counts i ≡ some count)
              × IsOpened ciphertext (take threshold shares) max_votes i count)
  unfolding decrypt_proof_compatible_tally_with_shares
  decrypt_proof_compatible_tally_with_shares-verified ciphertext shares threshold max_votes counts
        h =
      let (enough, h1) = >>-eq-ok (leb threshold (length shares)) _ _ h in
      let (different, h2) = >>-eq-ok (all_different _) _ _ h1 in
      let (checked, h3) =
        then-eq-ok (check_jub_shares v jub ciphertext (take threshold shares)) _ h2 in
      (
        leb→le threshold (length shares) enough,
        different,
        check_jub_shares-verified ciphertext (take threshold shares) checked,
        λ i inside.
            let place : get_elem? (range 0 proof_compatible_candidate_count) i ≡ some i =
              get_elem?-range 0 proof_compatible_candidate_count i inside ∙ ap some (omega arith) in
            let (count, there, is_count) =
              map_result_at (count_jub v jub ciphertext (take threshold shares) max_votes) _ counts
                i h3 place in
            (
              count,
              there,
              count_jub-IsOpened ciphertext (take threshold shares) max_votes i count is_count,
            ),
      )
