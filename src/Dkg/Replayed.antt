-- ===== src/Dkg/Replayed.antt =====
-- What becomes of a contribution that is sent again.
use scalable_blockchain_voti.Prelude.{
  ℕ, zero, suc, ◌+◌, ◌≡◌, refl, sym, ap, ◌∙◌, subst, none, some, List, [], ◌∷◌, ◌++◌, length,
  length-append, Bool-cases, inl, inr, ◌&&◌, ◌==◌, arith,
}
use scalable_blockchain_voti.Outcome.{ok, Result-cases}
use scalable_blockchain_voti.Js.Texts.{Text, text_eq_refl}
use scalable_blockchain_voti.Viem.{Viem}
use scalable_blockchain_voti.Dkg.{DkgContribution, Signatures}
use scalable_blockchain_voti.Js.Indexes.{add_index}
use scalable_blockchain_voti.Dkg.Coordinator.{
  Coordinator, Slot, DkgEquivocationEvidence, find_contribution, hash_equivocation,
  record_equivocation, record_contribution, check_contribution, check_parent, add_contribution,
}
use scalable_blockchain_voti.Dkg.Recorded.{slot_of, check_contribution-IsAdmitted}
use scalable_blockchain_voti.Dkg.Equivocated.{IsConflict, add_conflict}

module _ (v : Viem) (curve : Signatures) where
  -- `addContribution`, n times
  abbrev pub add_times : ℕ → DkgContribution → Coordinator → Coordinator
  add_times zero k s = s
  add_times (suc n) k s = add_times n k (add_contribution v curve k s).1

  check_same :
      (s : Coordinator) (d : List ℕ) (e : List DkgEquivocationEvidence) (k : DkgContribution)
      → check_contribution v curve (record s { disqualified = d; equivocations = e }) k
        ≡ check_contribution v curve s k
  unfolding check_contribution
  check_same s d e k = refl

  conflict_again :
      (s : Coordinator) (k : DkgContribution) (c : IsConflict v curve s k) {evidence : Text}
      → hash_equivocation v k.unsigned.trustee_index k.unsigned.round c.kept_hash c.hash
        ≡ ok evidence
      → (next : Coordinator) × ((add_contribution v curve k s).1 ≡ next)
        × (length next.equivocations ≡ length s.equivocations + 1)
        × (d : IsConflict v curve next k) × (d.kept_hash ≡ c.kept_hash)
        × (d.hash ≡ c.hash)
  conflict_again s k c {evidence} made = (
    record s {
      disqualified = add_index s.disqualified k.unsigned.trustee_index;
      equivocations =
          s.equivocations
          ++ record {
            trustee_index = k.unsigned.trustee_index;
            round = k.unsigned.round;
            first_contribution_hash = c.kept_hash;
            second_contribution_hash = c.hash;
            evidence_hash = evidence;
          }
            ∷ [];
    },
    rw (add_conflict v curve s k c) (unfold record_equivocation in rw made refl),
    length-append s.equivocations _,
    record {
      hash = c.hash;
      kept = c.kept;
      kept_hash = c.kept_hash;
      accepted = check_same s _ _ k ∙ c.accepted;
      there_before = c.there_before;
      hashed = c.hashed;
      differs = c.differs;
    },
    refl,
    refl,
  )

  -- A conflicting contribution that is sent again is evidence again: after n times there are n more
  -- entries.
  pub replay_grows :
      (n : ℕ) (s : Coordinator) (k : DkgContribution) (c : IsConflict v curve s k) (evidence : Text)
      → hash_equivocation v k.unsigned.trustee_index k.unsigned.round c.kept_hash c.hash
        ≡ ok evidence
      → length (add_times n k s).equivocations ≡ length s.equivocations + n
  replay_grows zero s k c evidence made = omega arith
  replay_grows (suc n) s k c evidence made =
      let (next, e, size, d, kept_same, same) = conflict_again s k c made in
      let rest = replay_grows n next k d evidence (rw (kept_same, same) made) in
      subst (λ m. length (add_times n k m).equivocations ≡ length s.equivocations + suc n) (sym e)
        (omega (arith, size, rest))

  find_contribution-concat :
      (i r : ℕ) (l : List Slot) (k : DkgContribution)
      → find_contribution i r l ≡ none
      → find_contribution i r (l ++ record { index = i; round = r; kept = k } ∷ []) ≡ some k
  unfolding find_contribution
  find_contribution-concat i r [] k h = ground arith
  find_contribution-concat i r (s ∷ l) k h = elim (Bool-cases (s.index == i && s.round == r)) [
    | inl here ↦ absurd (cc (rw here at h))
    | inr elsewhere ↦ rw elsewhere (find_contribution-concat i r l k (rw elsewhere at h))
  ]

  check_kept :
      (s : Coordinator) (l : List Slot) (k : DkgContribution)
      → check_contribution v curve (record s { contributions = l }) k
        ≡ check_contribution v curve s k
  unfolding check_contribution
  check_kept s l k = refl

  kept_again :
      (s : Coordinator) (k : DkgContribution) (hash : Text)
      → check_contribution v curve s k ≡ ok hash
      → find_contribution k.unsigned.trustee_index k.unsigned.round s.contributions ≡ none
      → add_contribution v curve k
          (record s { contributions = s.contributions ++ slot_of v curve k ∷ [] })
        ≡ (ok tt, record s { contributions = s.contributions ++ slot_of v curve k ∷ [] })
  unfolding add_contribution record_contribution
  kept_again s k hash accepted absent =
      let hashed = (check_contribution-IsAdmitted v curve s k hash accepted).1 in
      rw
        (
          check_kept s (s.contributions ++ slot_of v curve k ∷ []) k,
          accepted,
          find_contribution-concat k.unsigned.trustee_index k.unsigned.round s.contributions k
              absent,
          hashed,
          text_eq_refl hash,
        )
        refl

  -- A contribution that was taken can be sent again: `addContribution` returns and changes nothing.
  pub resubmitted_once_kept :
      (s after : Coordinator) (k : DkgContribution)
      → find_contribution k.unsigned.trustee_index k.unsigned.round s.contributions ≡ none
      → add_contribution v curve k s ≡ (ok tt, after)
      → add_contribution v curve k after ≡ (ok tt, after)
  unfolding add_contribution record_contribution
  resubmitted_once_kept s after k absent h = elim (Result-cases (check_contribution v curve s k)) [
    | inr (e, refused) ↦ absurd (cc (ap (λ r. r.0) (rw refused at h)))
    | inl (hash, accepted) ↦
        let h1 : record_contribution v k hash none s ≡ (ok tt, after) =
          rw (accepted, absent) at h in
        elim (Result-cases (check_parent v s k)) [
          | inr (e, refused) ↦ absurd (cc (ap (λ r. r.0) (rw refused at h1)))
          | inl (u, parented) ↦
              let h2 : record s { contributions = s.contributions ++ slot_of v curve k ∷ [] }
                  ≡ after =
                ap (λ r. r.1) (rw parented at h1) in
              subst (λ a. add_contribution v curve k a ≡ (ok tt, a)) h2
                (kept_again s k hash accepted absent)
        ]
  ]
