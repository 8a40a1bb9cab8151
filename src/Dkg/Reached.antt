-- ===== src/Dkg/Reached.antt =====
-- The invariant of the coordinator, and that each of its methods keeps it.
use mathlib.Core.List.{map-append}
use scalable_blockchain_voti.Prelude.{
  ℕ, ◌+◌, ◌≤◌, ◌≡◌, ◌≢◌, refl, sym, subst, true, ◌&&◌, inl, inr, Option, none, some, List, [], ◌∷◌,
  ◌++◌, map, length, length-append, Bool-cases, leb, leb→le, ◌==◌, ==_iff, not, All, All-append,
  All-imp, arith, and_left, and_right,
}
use scalable_blockchain_voti.Outcome.{ok, Result-cases, >>=-eq-ok, >>-eq-ok, then-eq-ok, ok_inj}
use scalable_blockchain_voti.Js.Texts.{Text, lower}
use scalable_blockchain_voti.Js.Sorting.Increasing.{IsDistinct}
use scalable_blockchain_voti.Viem.{Viem}
use scalable_blockchain_voti.Dkg.{
  DkgTrustee, DkgContribution, Signatures, require_bytes32, verify_dkg_contribution,
}
use scalable_blockchain_voti.Dkg.Coordinator.{
  Coordinator, Slot, find_trustee, find_contribution, is_some, register, new_coordinator,
  add_contribution, make_transcript, finalize,
}
use scalable_blockchain_voti.Dkg.Recorded.{
  IsAdmitted, IsParented, unchanged, kept_new, disqualifies, slot_of, add_contribution-Effect,
}

IsDistinct-concat :
    (is : List ℕ) (j : ℕ) → IsDistinct is → All (λ i. i ≢ j) is → IsDistinct (is ++ j ∷ [])
IsDistinct-concat [] j d h = (tt, tt)
IsDistinct-concat (i ∷ is) j d h =
    (All-append (λ x. i ≢ x) is (j ∷ []) d.0 (h.0, tt), IsDistinct-concat is j d.1 h.1)

abbrev pub indexes : List DkgTrustee → List ℕ
indexes ts = map (λ t. t.trustee_index) ts

unknown_index :
    (i : ℕ) (ts : List DkgTrustee) → find_trustee i ts ≡ none → All (λ j. j ≢ i) (indexes ts)
unfolding find_trustee
unknown_index i [] h = tt
unknown_index i (t ∷ ts) h = elim (Bool-cases (t.trustee_index == i)) [
  | inl here ↦ absurd (cc (rw here at h))
  | inr elsewhere ↦ (
    λ e. absurd (cc ((==_iff t.trustee_index i).1 e, elsewhere)),
    unknown_index i ts (rw elsewhere at h),
  )
]

pub find_contribution-append :
    (i r : ℕ) (l m : List Slot) {k : DkgContribution}
    → find_contribution i r l ≡ some k
    → find_contribution i r (l ++ m) ≡ some k
unfolding find_contribution
find_contribution-append i r [] m h = cc
find_contribution-append i r (s ∷ l) m h = elim (Bool-cases (s.index == i && s.round == r)) [
  | inl here ↦ rw here (rw here at h)
  | inr elsewhere ↦ rw elsewhere (find_contribution-append i r l m (rw elsewhere at h))
]

module _ (v : Viem) (curve : Signatures) where
  -- A recorded contribution stands in its own slot, is signed by its trustee, is of the ceremony,
  -- and has the parent that its round requires.
  pub record IsRecorded (s : Coordinator) (slot : Slot) : Type 0 where
    pub index_kept : slot.kept.unsigned.trustee_index ≡ slot.index
    pub round_kept : slot.kept.unsigned.round ≡ slot.round
    pub public_key : Text
    pub known : find_trustee slot.kept.unsigned.trustee_index s.trustees ≡ some public_key
    pub signed : verify_dkg_contribution v curve slot.kept public_key ≡ true
    pub ceremony_fits : lower slot.kept.unsigned.ceremony_id ≡ s.ceremony_id
    pub parented : IsParented v curve s slot.kept

  pub record IsSound (s : Coordinator) : Type 0 where
    pub recorded : All (IsRecorded s) s.contributions
    pub distinct : IsDistinct (indexes s.trustees)
    pub nine : length s.trustees ≡ 9
    pub in_range : All (λ i. (1 ≤ i) × (i ≤ 9)) (indexes s.trustees)

  -- What a coordinator may come to: the constructor, then calls of its methods, some of which throw.
  pub data Reached : Coordinator → Type 0 where
    begun :
        {s : Coordinator} (ceremony_id national_election_id constituency_id : Text)
        → (trustees : List DkgTrustee)
        → new_coordinator v ceremony_id national_election_id constituency_id trustees ≡ ok s
        → Reached s
    contributed :
        {s after : Coordinator} (k : DkgContribution)
        → Reached s
        → (add_contribution v curve k s).1 ≡ after
        → Reached after
    concluded :
        {s after : Coordinator} (election_public_key trustee_keyset_hash : Text)
        → Reached s
        → (finalize v election_public_key trustee_keyset_hash s).1 ≡ after
        → Reached after

  IsRecorded-append :
      (s : Coordinator) (more : List Slot) (slot : Slot)
      → IsRecorded s slot
      → IsRecorded (record s { contributions = s.contributions ++ more }) slot
  IsRecorded-append s more slot r = record {
    index_kept = r.index_kept;
    round_kept = r.round_kept;
    public_key = r.public_key;
    known = r.known;
    signed = r.signed;
    ceremony_fits = r.ceremony_fits;
    parented = elim r.parented [
      | inl one ↦ inl one
      | inr (later, first, found, hashed) ↦
          inr (later, first, find_contribution-append _ 1 s.contributions more found, hashed)
    ];
  }

  kept_new-IsSound :
      (s : Coordinator) (k : DkgContribution)
      → IsAdmitted v curve s k
      → IsParented v curve s k
      → IsSound s
      → IsSound (record s { contributions = s.contributions ++ slot_of v curve k ∷ [] })
  kept_new-IsSound s k admitted parented sound =
      let new : IsRecorded s (slot_of v curve k) = record {
        index_kept = refl;
        round_kept = refl;
        public_key = admitted.public_key;
        known = admitted.known;
        signed = admitted.signed;
        ceremony_fits = admitted.ceremony_fits;
        parented = parented;
      } in
      let slots = slot_of v curve k ∷ [] in
      record {
        recorded =
            All-append _ s.contributions slots
              (All-imp s.contributions (IsRecorded-append s slots) sound.recorded)
              (IsRecorded-append s slots (slot_of v curve k) new, tt);
        distinct = sound.distinct;
        nine = sound.nine;
        in_range = sound.in_range;
      }

  add_contribution-IsSound :
      (s : Coordinator) (k : DkgContribution) → IsSound s → IsSound (add_contribution v curve k s).1
  add_contribution-IsSound s k sound = elim (add_contribution-Effect v curve s k) [
    | unchanged e ↦ subst IsSound (sym e) sound
    | kept_new admitted parented absent e ↦
        subst IsSound (sym e) (kept_new-IsSound s k admitted parented sound)
    | disqualifies evidence opened e ↦ subst IsSound (sym e) (record {
      recorded =
          All-imp s.contributions
            (λ slot r. record {
              index_kept = r.index_kept;
              round_kept = r.round_kept;
              public_key = r.public_key;
              known = r.known;
              signed = r.signed;
              ceremony_fits = r.ceremony_fits;
              parented = r.parented;
            })
            sound.recorded;
      distinct = sound.distinct;
      nine = sound.nine;
      in_range = sound.in_range;
    })
  ]

  -- The constructor's loop: what it accepts is in range and new.
  record IsTable (ts : List DkgTrustee) : Type 0 where
    different : IsDistinct (indexes ts)
    ranged : All (λ i. (1 ≤ i) × (i ≤ 9)) (indexes ts)

  register-IsTable :
      (known ts table : List DkgTrustee)
      → IsTable known
      → register v known ts ≡ ok table
      → IsTable table × (length table ≡ length known + length ts)
  unfolding register
  register-IsTable known [] table t h = (subst IsTable (ok_inj h) t, rw (ok_inj h) (omega arith))
  register-IsTable known (x ∷ ts) table t h =
      let (range, h1) = >>-eq-ok (leb 1 x.trustee_index && leb x.trustee_index 9) _ _ h in
      let (new, h2) = >>-eq-ok (not (is_some (find_trustee x.trustee_index known))) _ _ h1 in
      let (key, h3) = >>-eq-ok (v.is_hex x.signing_public_key && _) _ _ h2 in
      let y : DkgTrustee = record {
        trustee_index = x.trustee_index;
        signing_public_key = lower x.signing_public_key;
      } in
      let (done, size) =
        register-IsTable (known ++ y ∷ []) ts table
          (record {
            different = rw map-append (
                IsDistinct-concat (indexes known) x.trustee_index t.different
                  (unknown_index x.trustee_index known (absent _ new)));
            ranged = rw map-append (
                All-append _ (indexes known) (x.trustee_index ∷ []) t.ranged
                  ((leb→le 1 _ (and_left _ _ range), leb→le _ 9 (and_right _ _ range)), tt));
          })
          h3 in
      (done, omega (arith, size, length-append known (y ∷ [])))
    where
      absent : {A : Type 0} (o : Option A) → not (is_some o) ≡ true → o ≡ none
      absent none e = refl
      absent (some a) e = cc

  new_coordinator-IsSound :
      (ceremony_id national_election_id constituency_id : Text) (ts : List DkgTrustee)
      (s : Coordinator)
      → new_coordinator v ceremony_id national_election_id constituency_id ts ≡ ok s
      → IsSound s
  unfolding new_coordinator
  new_coordinator-IsSound ceremony_id national_election_id constituency_id ts s h =
      let (_, h1) = then-eq-ok (require_bytes32 v ceremony_id _) _ h in
      let (_, h2) = then-eq-ok (require_bytes32 v national_election_id _) _ h1 in
      let (_, h3) = then-eq-ok (require_bytes32 v constituency_id _) _ h2 in
      let (nine, h4) = >>-eq-ok (length ts == 9) _ _ h3 in
      let (table, made, h5) = >>=-eq-ok (register v [] ts) _ h4 in
      let nine_given = (==_iff (length ts) 9).0 nine in
      let (done, size) =
        register-IsTable [] ts table (record { different = tt; ranged = tt }) made in
      subst IsSound (ok_inj h5) (record {
        recorded = tt;
        distinct = done.different;
        nine = omega (arith, size, nine_given);
        in_range = done.ranged;
      })

  finalize-IsSound :
      (election_public_key trustee_keyset_hash : Text) (s : Coordinator)
      → IsSound s
      → IsSound (finalize v election_public_key trustee_keyset_hash s).1
  unfolding finalize
  finalize-IsSound election_public_key trustee_keyset_hash s sound =
      elim (Result-cases (make_transcript v s election_public_key trustee_keyset_hash)) [
        | inr (e, h) ↦ rw h sound
        | inl (t, h) ↦ rw h (record {
          recorded =
              All-imp s.contributions
                (λ slot r. record {
                  index_kept = r.index_kept;
                  round_kept = r.round_kept;
                  public_key = r.public_key;
                  known = r.known;
                  signed = r.signed;
                  ceremony_fits = r.ceremony_fits;
                  parented = r.parented;
                })
                sound.recorded;
          distinct = sound.distinct;
          nine = sound.nine;
          in_range = sound.in_range;
        })
      ]

  -- Whatever calls of the methods follow the constructor, returning or throwing: there are nine
  -- trustees, with different indexes from 1 to 9, and each contribution that is kept stands under
  -- its own index and round, is signed by that trustee, is of the ceremony, and has no parent if
  -- its round is 1 and otherwise the hash of the kept contribution of round 1.
  pub Reached-IsSound : {s : Coordinator} → Reached s → IsSound s
  Reached-IsSound (begun c n d ts h) = new_coordinator-IsSound c n d ts _ h
  Reached-IsSound (contributed {s} k r e) =
      subst IsSound e (add_contribution-IsSound s k (Reached-IsSound r))
  Reached-IsSound (concluded {s} key keyset r e) =
      subst IsSound e (finalize-IsSound key keyset s (Reached-IsSound r))
