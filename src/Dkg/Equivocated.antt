-- ===== src/Dkg/Equivocated.antt =====
-- What becomes of a trustee that sends two different contributions for one round.
use scalable_blockchain_voti.Prelude.{
  ℕ, ◌≡◌, refl, sym, subst, true, false, some, List, [], ◌∷◌, Bool-cases, inl, inr, ◌==◌, ==_iff,
  All,
}
use scalable_blockchain_voti.Outcome.{ok, Result-cases}
use scalable_blockchain_voti.Js.Texts.{Text, text_eq}
use scalable_blockchain_voti.Viem.{Viem}
use scalable_blockchain_voti.Dkg.{DkgContribution, Signatures, hash_dkg_contribution}
use scalable_blockchain_voti.Js.Indexes.{has_index, add_index_there, add_index_keeps}
use scalable_blockchain_voti.Dkg.Coordinator.{
  Coordinator, SignedDkgTranscript, find_contribution, hash_equivocation, record_equivocation,
  record_contribution, check_contribution, add_contribution, make_transcript, finalize,
}
use scalable_blockchain_voti.Dkg.Recorded.{
  unchanged, kept_new, disqualifies, add_contribution-Effect,
}
use scalable_blockchain_voti.Dkg.Reached.{Reached}
use scalable_blockchain_voti.Dkg.Final.{transcript-IsQualified}

All-has_index : (P : ℕ → Type 0) (i : ℕ) (js : List ℕ) → All P js → has_index i js ≡ true → P i
unfolding has_index
All-has_index P i [] h e = cc
All-has_index P i (j ∷ js) h e = elim (Bool-cases (j == i)) [
  | inl here ↦ subst P ((==_iff j i).0 here) h.0
  | inr elsewhere ↦ All-has_index P i js h.1 (rw elsewhere at e)
]

module _ (v : Viem) (curve : Signatures) where
  -- Calls of the methods, returning or throwing, from one coordinator to another.
  pub data Later (s : Coordinator) : Coordinator → Type 0 where
    now : Later s s
    later_contributed :
        {m after : Coordinator} (k : DkgContribution)
        → Later s m
        → (add_contribution v curve k m).1 ≡ after
        → Later s after
    later_concluded :
        {m after : Coordinator} (election_public_key trustee_keyset_hash : Text)
        → Later s m
        → (finalize v election_public_key trustee_keyset_hash m).1 ≡ after
        → Later s after

  add_keeps_disqualified :
      (s : Coordinator) (k : DkgContribution) (i : ℕ)
      → has_index i s.disqualified ≡ true
      → has_index i (add_contribution v curve k s).1.disqualified ≡ true
  add_keeps_disqualified s k i h = elim (add_contribution-Effect v curve s k) [
    | unchanged e ↦ rw e h
    | kept_new _ _ _ e ↦ rw e h
    | disqualifies evidence opened e ↦
        rw e (add_index_keeps i s.disqualified k.unsigned.trustee_index h)
  ]

  finalize_keeps_disqualified :
      (s : Coordinator) (key keyset : Text)
      → (finalize v key keyset s).1.disqualified ≡ s.disqualified
  unfolding finalize
  finalize_keeps_disqualified s key keyset = elim (Result-cases (make_transcript v s key keyset)) [
    | inl (t, h) ↦ rw h refl
    | inr (e, h) ↦ rw h refl
  ]

  stays_disqualified :
      {s after : Coordinator} (i : ℕ)
      → Later s after
      → has_index i s.disqualified ≡ true
      → has_index i after.disqualified ≡ true
  stays_disqualified i now h = h
  stays_disqualified i (later_contributed {m} k l e) h =
      rw (sym e) (add_keeps_disqualified m k i (stays_disqualified i l h))
  stays_disqualified i (later_concluded {m} key keyset l e) h =
      rw (sym e, finalize_keeps_disqualified m key keyset) (stays_disqualified i l h)

  -- A contribution for a slot that holds another one, by their hashes.
  pub record IsConflict (s : Coordinator) (k : DkgContribution) : Type 0 where
    pub hash : Text
    pub kept : DkgContribution
    pub kept_hash : Text
    pub accepted : check_contribution v curve s k ≡ ok hash
    pub there_before :
        find_contribution k.unsigned.trustee_index k.unsigned.round s.contributions ≡ some kept
    pub hashed : hash_dkg_contribution v kept.unsigned ≡ ok kept_hash
    pub differs : text_eq kept_hash hash ≡ false

  pub add_conflict :
      (s : Coordinator) (k : DkgContribution) (c : IsConflict s k)
      → add_contribution v curve k s
        ≡ record_equivocation v k.unsigned.trustee_index k.unsigned.round c.kept_hash c.hash s
  unfolding add_contribution record_contribution
  add_conflict s k c = rw (c.accepted, c.there_before, c.hashed, c.differs) refl

  conflict_disqualifies :
      (s : Coordinator) (k : DkgContribution)
      → IsConflict s k
      → has_index k.unsigned.trustee_index (add_contribution v curve k s).1.disqualified ≡ true
  conflict_disqualifies s k c = rw (add_conflict s k c) (
      unfold record_equivocation in
      elim (Result-cases
        (hash_equivocation v k.unsigned.trustee_index k.unsigned.round c.kept_hash c.hash)) [
          | inl (e, h) ↦ rw h (add_index_there s.disqualified k.unsigned.trustee_index)
          | inr (e, h) ↦ rw h (add_index_there s.disqualified k.unsigned.trustee_index)
        ])

  -- Once a trustee's signed contribution conflicts with the one kept for its round, the trustee is
  -- in no transcript's qualified indexes, whatever calls follow.
  pub equivocator_never_qualifies :
      (s m after : Coordinator) (k : DkgContribution) (key keyset : Text) (t : SignedDkgTranscript)
      → Reached v curve s
      → IsConflict s k
      → Later (add_contribution v curve k s).1 m
      → finalize v key keyset m ≡ (ok t, after)
      → has_index k.unsigned.trustee_index t.qualified_trustee_indexes ≡ false
  equivocator_never_qualifies s m after k key keyset t reached c l h =
      let i = k.unsigned.trustee_index in
      let out = stays_disqualified i l (conflict_disqualifies s k c) in
      let (_, _, all, _) =
        transcript-IsQualified v curve m after key keyset t (reached_later l) h in
      elim (Bool-cases (has_index i t.qualified_trustee_indexes)) [
        | inr out_of_it ↦ out_of_it
        | inl named ↦ absurd (
            let q = All-has_index _ i t.qualified_trustee_indexes all named in
            cc (q.not_disqualified, out))
      ]
    where
      reached_later :
          {n : Coordinator} → Later (add_contribution v curve k s).1 n → Reached v curve n
      reached_later now = Reached.contributed k reached refl
      reached_later (later_contributed k' l' e) = Reached.contributed k' (reached_later l') e
      reached_later (later_concluded key' keyset' l' e) =
          Reached.concluded key' keyset' (reached_later l') e
