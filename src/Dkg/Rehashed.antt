-- ===== src/Dkg/Rehashed.antt =====
-- The transcript hash of `finalize` in packages/crypto/src/dkg.ts and the evidence that it is over.
use scalable_blockchain_voti.Prelude.{
  ℕ, ◌≡◌, ◌≢◌, ◌⊎◌, inl, inr, refl, ap, ◌∙◌, Bool-cases, List, [], ◌∷◌, map, length, length-map,
  not, ltb, leb, ◌&&◌, arith,
}
use scalable_blockchain_voti.Outcome.{ok, map_result, >>=-eq-ok, >>-eq-ok, then-eq-ok, ok_inj}
use scalable_blockchain_voti.Outcome.Stateful.{and_then-eq-ok}
use scalable_blockchain_voti.Js.Texts.{Text, lower, text_eq, text_eq_iff}
use scalable_blockchain_voti.Js.Sorting.{sort_by, sort_texts}
use scalable_blockchain_voti.Js.Sorting.Elements.{length-sort_by}
use scalable_blockchain_voti.Viem.{
  Viem, AbiValue, bytes32, uint, uint_list, bytes32_list, bytes, domain_hash, hash_abi,
}
use scalable_blockchain_voti.Viem.Laws.{IsCounted, Collision, hash_abi_counts}
use scalable_blockchain_voti.Dkg.{
  DkgContribution, Signatures, dkg_threshold, dkg_trustee_count, require_bytes32,
}
use scalable_blockchain_voti.Dkg.Coordinator.{
  Coordinator, SignedDkgTranscript, dkg_transcript_version, hash_equivocation, qualified_indexes,
  both_hashes, flatten, make_transcript, finalize,
}
use scalable_blockchain_voti.Dkg.Equivocated.{IsConflict}
use scalable_blockchain_voti.Dkg.Replayed.{add_times, replay_grows}

abbrev eleventh : List ℕ → ℕ
eleventh (_ ∷ _ ∷ _ ∷ _ ∷ _ ∷ _ ∷ _ ∷ _ ∷ _ ∷ _ ∷ n ∷ _) = n
eleventh _ = 0

module _ (v : Viem) where
  abbrev hashed_values :
      Coordinator
      → (qualified disqualified : List ℕ) (hashes evidence : List Text) (key keyset : Text)
      → List AbiValue
  hashed_values s qualified disqualified hashes evidence key keyset =
      bytes32 (domain_hash v "SVB_PEDERSEN_DKG_TRANSCRIPT_V1")
      ∷ uint 8 dkg_transcript_version
      ∷ bytes32 s.ceremony_id
      ∷ bytes32 s.national_election_id
      ∷ bytes32 s.constituency_id
      ∷ uint 8 dkg_threshold
      ∷ uint 8 dkg_trustee_count
      ∷ uint_list 8 qualified
      ∷ uint_list 8 disqualified
      ∷ bytes32_list hashes
      ∷ bytes32_list evidence
      ∷ bytes (lower key)
      ∷ bytes32 (lower keyset)
      ∷ []

  -- The values that a transcript hash is over: as many pieces of evidence as the coordinator has.
  record IsHashed (s : Coordinator) (key keyset hash : Text) : Type 0 where
    qualified : List ℕ
    disqualified : List ℕ
    hashes : List Text
    evidence : List Text
    counted : length evidence ≡ length s.equivocations
    made : hash_abi v (hashed_values s qualified disqualified hashes evidence key keyset) ≡ ok hash

  finalize-IsHashed :
      (s after : Coordinator) (key keyset : Text) (t : SignedDkgTranscript)
      → finalize v key keyset s ≡ (ok t, after)
      → IsHashed s key keyset t.transcript_hash
  unfolding finalize make_transcript sort_texts
  finalize-IsHashed s after key keyset t h =
      let (made, before, e, h1) = and_then-eq-ok (make_transcript v s key keyset, s) _ h in
      let same : made ≡ t = ok_inj (ap (λ r. r.0) h1) in
      let (_, g1) = >>-eq-ok (not s.finalized) _ _ (ap (λ r. r.0) e) in
      let (_, g2) = >>-eq-ok (v.is_hex key && ltb 4 (length key)) _ _ g1 in
      let (_, g3) = then-eq-ok (require_bytes32 v keyset _) _ g2 in
      let (_, g4) = >>-eq-ok (leb dkg_threshold (length (qualified_indexes s))) _ _ g3 in
      let (hashes, _, g5) = >>=-eq-ok (map_result (both_hashes v s) (qualified_indexes s)) _ g4 in
      let (hash, hashed, g6) = >>=-eq-ok (hash_abi v _) _ g5 in
      record {
        qualified = qualified_indexes s;
        disqualified = sort_by leb s.disqualified;
        hashes = flatten hashes;
        evidence = sort_texts (map (λ e. e.evidence_hash) s.equivocations);
        counted =
            length-sort_by _ (map (λ e. e.evidence_hash) s.equivocations)
            ∙ length-map (λ e. e.evidence_hash) s.equivocations;
        made = hashed ∙ ap ok (ap (λ x. x.transcript_hash) (ok_inj g6 ∙ same));
      }

  -- A conflicting contribution that is sent again is evidence again, and `finalize` hashes it as
  -- often: after it was sent m times and after it was sent n times, another number, to the same
  -- coordinator, the two transcripts that `finalize` returns for one key and key set have different
  -- hashes; or keccak256 collides, at inputs that the proof gives.
  pub replays_rehash :
      (curve : Signatures)
      → IsCounted v
      → (m n : ℕ) → m ≢ n
      → (s : Coordinator) (k : DkgContribution) (c : IsConflict v curve s k) (evidence : Text)
      → hash_equivocation v k.unsigned.trustee_index k.unsigned.round c.kept_hash c.hash
        ≡ ok evidence
      → (key keyset : Text) (t u : SignedDkgTranscript) (after_t after_u : Coordinator)
      → finalize v key keyset (add_times v curve m k s) ≡ (ok t, after_t)
      → finalize v key keyset (add_times v curve n k s) ≡ (ok u, after_u)
      → (t.transcript_hash ≢ u.transcript_hash) ⊎ Collision v
  replays_rehash curve counted m n differ s k c evidence made key keyset t u after_t after_u ht hu =
      elim (Bool-cases (text_eq t.transcript_hash u.transcript_hash)) [
        | inr other ↦ inl (λ e.
            let same = (text_eq_iff t.transcript_hash u.transcript_hash).1 e in cc (same, other))
        | inl same ↦
            let a = finalize-IsHashed (add_times v curve m k s) after_t key keyset t ht in
            let b = finalize-IsHashed (add_times v curve n k s) after_u key keyset u hu in
            let one = (text_eq_iff t.transcript_hash u.transcript_hash).0 same in
            elim (hash_abi_counts v counted _ _ u.transcript_hash refl (a.made ∙ ap ok one)
              b.made) [
                | inr found ↦ inr found
                | inl sizes ↦
                    let equal : length a.evidence ≡ length b.evidence = ap eleventh sizes in
                    let m_more = a.counted ∙ replay_grows v curve m s k c evidence made in
                    let n_more = b.counted ∙ replay_grows v curve n s k c evidence made in
                    absurd (differ (omega (arith, equal, m_more, n_more)))
              ]
      ]
