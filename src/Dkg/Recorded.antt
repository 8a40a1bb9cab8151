-- ===== src/Dkg/Recorded.antt =====
-- What one call of `addContribution` may do to the coordinator.
use scalable_blockchain_voti.Prelude.{
  ◌≡◌, ◌≢◌, refl, sym, subst, true, false, ◌⊎◌, inl, inr, Option, none, some, List, [], ◌∷◌, ◌++◌,
  Bool-cases, not, ◌==◌, ==_iff, arith,
}
use scalable_blockchain_voti.Outcome.{Error, ok, Result-cases, >>=-eq-ok, >>-eq-ok, guard-eq-ok}
use scalable_blockchain_voti.Js.Texts.{Text, lower, text_eq, text_eq_iff}
use scalable_blockchain_voti.Viem.{Viem}
use scalable_blockchain_voti.Merkle.{zero_hash}
use scalable_blockchain_voti.Dkg.{
  DkgContribution, Signatures, hash_dkg_contribution, verify_dkg_contribution,
}
use scalable_blockchain_voti.Js.Indexes.{add_index}
use scalable_blockchain_voti.Dkg.Coordinator.{
  Coordinator, Slot, DkgEquivocationEvidence, find_trustee, find_contribution, required,
  hash_equivocation, check_parent, record_equivocation, record_contribution, check_contribution,
  add_contribution,
}

pub required-eq-ok {ℓ} :
    {A : Type ℓ} (o : Option A) (e : Error) {a : A} → required o e ≡ ok a → o ≡ some a
unfolding required
required-eq-ok none e h = cc
required-eq-ok (some b) e h = ground arith

module _ (v : Viem) (curve : Signatures) where
  -- What the assertions of `addContribution` establish.
  pub record IsAdmitted (s : Coordinator) (k : DkgContribution) : Type 0 where
    pub still_open : s.finalized ≡ false
    pub ceremony_fits : lower k.unsigned.ceremony_id ≡ s.ceremony_id
    pub election_fits : lower k.unsigned.national_election_id ≡ s.national_election_id
    pub constituency_fits : lower k.unsigned.constituency_id ≡ s.constituency_id
    pub public_key : Text
    pub known : find_trustee k.unsigned.trustee_index s.trustees ≡ some public_key
    pub signed : verify_dkg_contribution v curve k public_key ≡ true

  -- A contribution of the first round has no parent; one of the second has that of the first.
  abbrev pub IsParented : Coordinator → DkgContribution → Type 0
  IsParented s k =
      ((k.unsigned.round ≡ 1) × (lower k.unsigned.previous_contribution_hash ≡ zero_hash))
      ⊎ ((k.unsigned.round ≢ 1)
          × (first : DkgContribution) × (find_contribution k.unsigned.trustee_index 1
                s.contributions
              ≡ some first)
          × (hash_dkg_contribution v first.unsigned
              ≡ ok (lower k.unsigned.previous_contribution_hash)))

  pub check_contribution-IsAdmitted :
      (s : Coordinator) (k : DkgContribution) (hash : Text)
      → check_contribution v curve s k ≡ ok hash
      → IsAdmitted s k × (hash_dkg_contribution v k.unsigned ≡ ok hash)
  unfolding check_contribution
  check_contribution-IsAdmitted s k hash h =
      let (opened, h1) = >>-eq-ok (not s.finalized) _ _ h in
      let (ceremony, h2) = >>-eq-ok (text_eq (lower k.unsigned.ceremony_id) s.ceremony_id) _ _ h1 in
      let (election, h3) = >>-eq-ok (text_eq _ s.national_election_id) _ _ h2 in
      let (constituency, h4) = >>-eq-ok (text_eq _ s.constituency_id) _ _ h3 in
      let (key, found, h5) = >>=-eq-ok (required (find_trustee _ s.trustees) _) _ h4 in
      let (valid, h6) = >>-eq-ok (verify_dkg_contribution v curve k key) _ _ h5 in
      (
        record {
          still_open = ground arith;
          ceremony_fits = (text_eq_iff _ _).0 ceremony;
          election_fits = (text_eq_iff _ _).0 election;
          constituency_fits = (text_eq_iff _ _).0 constituency;
          public_key = key;
          known = required-eq-ok _ _ found;
          signed = valid;
        },
        h6,
      )

  check_parent-IsParented :
      (s : Coordinator) (k : DkgContribution) {u : Unit {0}}
      → check_parent v s k ≡ ok u
      → IsParented s k
  unfolding check_parent
  check_parent-IsParented s k h = elim (Bool-cases (k.unsigned.round == 1)) [
    | inl one ↦
        let rooted = guard-eq-ok (text_eq _ zero_hash) _ (rw one at h) in
        inl ((==_iff _ _).0 one, (text_eq_iff _ _).0 rooted)
    | inr later ↦
        let (first, found, h1) =
          >>=-eq-ok (required (find_contribution _ 1 s.contributions) _) _ (rw later at h) in
        let (parent, hashed, h2) = >>=-eq-ok (hash_dkg_contribution v first.unsigned) _ h1 in
        let same = (text_eq_iff _ parent).0 (guard-eq-ok _ _ h2) in
        inr (
          (λ e. absurd (cc ((==_iff k.unsigned.round 1).1 e, later))),
          first,
          required-eq-ok _ _ found,
          subst (λ p. hash_dkg_contribution v first.unsigned ≡ ok p) (sym same) hashed,
        )
  ]

  abbrev pub slot_of : DkgContribution → Slot
  slot_of k = record { index = k.unsigned.trustee_index; round = k.unsigned.round; kept = k }

  -- Nothing, a new slot, or a trustee disqualified.
  pub data Effect (s : Coordinator) (k : DkgContribution) (after : Coordinator) : Type 0 where
    unchanged : after ≡ s → Effect s k after
    kept_new :
        IsAdmitted s k
        → IsParented s k
        → find_contribution k.unsigned.trustee_index k.unsigned.round s.contributions ≡ none
        → after ≡ record s { contributions = s.contributions ++ slot_of k ∷ [] }
        → Effect s k after
    disqualifies :
        (evidence : List DkgEquivocationEvidence)
        → s.finalized ≡ false
        → after ≡ record s {
          disqualified = add_index s.disqualified k.unsigned.trustee_index;
          equivocations = evidence;
        }
        → Effect s k after

  equivocation-Effect :
      (s : Coordinator) (k : DkgContribution) (first second : Text)
      → IsAdmitted s k
      → Effect s k
          (record_equivocation v k.unsigned.trustee_index k.unsigned.round first second s).1
  unfolding record_equivocation
  equivocation-Effect s k first second admitted =
      elim (Result-cases
        (hash_equivocation v k.unsigned.trustee_index k.unsigned.round first second)) [
          | inl (hash, h) ↦ rw h (disqualifies _ admitted.still_open refl)
          | inr (e, h) ↦ rw h (disqualifies s.equivocations admitted.still_open refl)
        ]

  record_contribution-Effect :
      (s : Coordinator) (k : DkgContribution) (hash : Text) (o : Option DkgContribution)
      → find_contribution k.unsigned.trustee_index k.unsigned.round s.contributions ≡ o
      → IsAdmitted s k
      → Effect s k (record_contribution v k hash o s).1
  unfolding record_contribution
  record_contribution-Effect s k hash none absent admitted =
      elim (Result-cases (check_parent v s k)) [
        | inl (u, h) ↦ rw h (kept_new admitted (check_parent-IsParented s k h) absent refl)
        | inr (e, h) ↦ rw h (unchanged refl)
      ]
  record_contribution-Effect s k hash (some old) there admitted =
      elim (Result-cases (hash_dkg_contribution v old.unsigned)) [
        | inr (e, h) ↦ rw h (unchanged refl)
        | inl (old_hash, h) ↦ elim (Bool-cases (text_eq old_hash hash)) [
          | inl same ↦ rw (h, same) (unchanged refl)
          | inr other ↦ rw (h, other) (equivocation-Effect s k old_hash hash admitted)
        ]
      ]

  pub add_contribution-Effect :
      (s : Coordinator) (k : DkgContribution) → Effect s k (add_contribution v curve k s).1
  unfolding add_contribution
  add_contribution-Effect s k = elim (Result-cases (check_contribution v curve s k)) [
    | inr (e, h) ↦ rw h (unchanged refl)
    | inl (hash, h) ↦
        rw h
          (record_contribution-Effect s k hash _ refl (check_contribution-IsAdmitted s k hash h).0)
  ]
