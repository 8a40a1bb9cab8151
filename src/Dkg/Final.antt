-- ===== src/Dkg/Final.antt =====
-- What a transcript that `finalize` returns promises.
use scalable_blockchain_voti.Prelude.{
  ℕ, ◌≤◌, ◌≡◌, ◌≢◌, refl, sym, ap, ◌∙◌, subst, Bool, true, false, ◌&&◌, inl, inr, Option, none,
  some, some_inj, List, [], ◌∷◌, length, Bool-cases, ltb, leb, leb→le, ◌==◌, ==_iff, not, All,
  All-imp, arith, and_left, and_right,
}
use scalable_blockchain_voti.Outcome.{
  assertion, ok, err, >>=-eq-ok, >>-eq-ok, then-eq-ok, ok_inj, guard, map_result,
}
use scalable_blockchain_voti.Outcome.Stateful.{and_then-eq-ok}
use scalable_blockchain_voti.Js.Texts.{Text, lower}
use scalable_blockchain_voti.Js.Sorting.{sort_by}
use scalable_blockchain_voti.Js.Sorting.Elements.{All-sort_by}
use scalable_blockchain_voti.Js.Sorting.Increasing.{IsDistinct, IsIncreasing, sort_by-IsIncreasing}
use scalable_blockchain_voti.Viem.{Viem, hash_abi}
use scalable_blockchain_voti.Merkle.{zero_hash}
use scalable_blockchain_voti.Dkg.Recorded.{IsParented}
use scalable_blockchain_voti.Dkg.{
  DkgContribution, Signatures, require_bytes32, hash_dkg_contribution, verify_dkg_contribution,
}
use scalable_blockchain_voti.Js.Indexes.{has_index}
use scalable_blockchain_voti.Dkg.Coordinator.{
  Coordinator, Slot, SignedDkgTranscript, find_trustee, find_contribution, is_some, filter_index,
  is_qualified, qualified_indexes, both_hashes, make_transcript, finalize, add_contribution,
  check_contribution,
}
use scalable_blockchain_voti.Dkg.Reached.{IsSound, Reached, Reached-IsSound}

module _ (test : ℕ → Bool) where
  All-filter_index {κ} : (P : ℕ → Type κ) (is : List ℕ) → All P is → All P (filter_index test is)
  unfolding filter_index
  All-filter_index P [] h = tt
  All-filter_index P (i ∷ is) h = elim (Bool-cases (test i)) [
    | inl kept ↦ rw kept (h.0, All-filter_index P is h.1)
    | inr left_out ↦ rw left_out (All-filter_index P is h.1)
  ]

  filter_index-IsDistinct : (is : List ℕ) → IsDistinct is → IsDistinct (filter_index test is)
  unfolding filter_index
  filter_index-IsDistinct [] d = tt
  filter_index-IsDistinct (i ∷ is) d = elim (Bool-cases (test i)) [
    | inl kept ↦ rw kept (All-filter_index (λ j. i ≢ j) is d.0, filter_index-IsDistinct is d.1)
    | inr left_out ↦ rw left_out (filter_index-IsDistinct is d.1)
  ]

  filter_index-passes : (is : List ℕ) → All (λ i. test i ≡ true) (filter_index test is)
  unfolding filter_index
  filter_index-passes [] = tt
  filter_index-passes (i ∷ is) = elim (Bool-cases (test i)) [
    | inl kept ↦ rw kept (kept, filter_index-passes is)
    | inr left_out ↦ rw left_out (filter_index-passes is)
  ]

kept_in :
    {P : Slot → Type 0} (i r : ℕ) (l : List Slot) {k : DkgContribution}
    → find_contribution i r l ≡ some k
    → All P l
    → (slot : Slot) × (slot.index ≡ i) × (slot.round ≡ r) × (slot.kept ≡ k) × P slot
unfolding find_contribution
kept_in i r [] e h = cc
kept_in i r (s ∷ l) e h = elim (Bool-cases (s.index == i && s.round == r)) [
  | inl here ↦ (
    s,
    (==_iff s.index i).0 (and_left _ _ here),
    (==_iff s.round r).0 (and_right _ _ here),
    some_inj (rw here at e),
    h.0,
  )
  | inr elsewhere ↦ kept_in i r l (rw elsewhere at e) h.1
]

there : {A : Type 0} (o : Option A) → is_some o ≡ true → (a : A) × (o ≡ some a)
there none e = cc
there (some a) e = (a, refl)

module _ (v : Viem) (curve : Signatures) where
  -- A trustee that never equivocated and whose two contributions were kept: both are signed with
  -- its registered key, the first has no parent, and the second has the first for its parent.
  pub record IsQualified (s : Coordinator) (i : ℕ) : Type 0 where
    pub first : DkgContribution
    pub second : DkgContribution
    pub first_kept : find_contribution i 1 s.contributions ≡ some first
    pub second_kept : find_contribution i 2 s.contributions ≡ some second
    pub public_key : Text
    pub known : find_trustee i s.trustees ≡ some public_key
    pub first_signed : verify_dkg_contribution v curve first public_key ≡ true
    pub second_signed : verify_dkg_contribution v curve second public_key ≡ true
    pub rooted : lower first.unsigned.previous_contribution_hash ≡ zero_hash
    pub linked :
        hash_dkg_contribution v first.unsigned
        ≡ ok (lower second.unsigned.previous_contribution_hash)
    pub not_disqualified : has_index i s.disqualified ≡ false

  -- What was recorded of the contribution that is found under an index and a round.
  record IsKept (s : Coordinator) (i r : ℕ) (k : DkgContribution) : Type 0 where
    its_index : k.unsigned.trustee_index ≡ i
    its_round : k.unsigned.round ≡ r
    its_key : Text
    its_trustee : find_trustee i s.trustees ≡ some its_key
    its_signature : verify_dkg_contribution v curve k its_key ≡ true
    its_parent : IsParented v curve s k

  found-IsKept :
      (s : Coordinator) (i r : ℕ) (k : DkgContribution)
      → IsSound v curve s
      → find_contribution i r s.contributions ≡ some k
      → IsKept s i r k
  found-IsKept s i r k sound found =
      let (slot, at_i, at_r, same, e) = kept_in i r s.contributions found sound.recorded in
      subst (IsKept s i r) same (record {
        its_index = e.index_kept ∙ at_i;
        its_round = e.round_kept ∙ at_r;
        its_key = e.public_key;
        its_trustee =
            subst (λ j. find_trustee j s.trustees ≡ some e.public_key) (e.index_kept ∙ at_i)
              e.known;
        its_signature = e.signed;
        its_parent = e.parented;
      })

  is_qualified-IsQualified :
      (s : Coordinator) (i : ℕ) → IsSound v curve s → is_qualified s i ≡ true → IsQualified s i
  unfolding is_qualified
  is_qualified-IsQualified s i sound h =
      let one_there : is_some (find_contribution i 1 s.contributions) ≡ true = ground arith in
      let two_there : is_some (find_contribution i 2 s.contributions) ≡ true = ground arith in
      let never : has_index i s.disqualified ≡ false = ground arith in
      let (one, one_kept) = there _ one_there in
      let (two, two_kept) = there _ two_there in
      let e1 = found-IsKept s i 1 one sound one_kept in
      let e2 = found-IsKept s i 2 two sound two_kept in
      record {
        first = one;
        second = two;
        first_kept = one_kept;
        second_kept = two_kept;
        public_key = e1.its_key;
        known = e1.its_trustee;
        first_signed = e1.its_signature;
        second_signed =
            subst (λ key. verify_dkg_contribution v curve two key ≡ true)
              (some_inj (sym e2.its_trustee ∙ e1.its_trustee)) e2.its_signature;
        rooted = elim e1.its_parent [
          | inl (_, root) ↦ root
          | inr (later, parent, at_one, hash_made) ↦ absurd (later e1.its_round)
        ];
        linked = elim e2.its_parent [
          | inl (early, _) ↦ absurd (omega (arith, early, e2.its_round))
          | inr (later, first, found, hashed) ↦
              subst
                (λ k.
                  hash_dkg_contribution v k.unsigned
                  ≡ ok (lower two.unsigned.previous_contribution_hash))
                (some_inj (sym (rw e2.its_index at found) ∙ one_kept)) hashed
        ];
        not_disqualified = never;
      }

  make_transcript-eq-ok :
      (s : Coordinator) (key keyset : Text) (t : SignedDkgTranscript)
      → make_transcript v s key keyset ≡ ok t
      → (5 ≤ length t.qualified_trustee_indexes)
        × (t.qualified_trustee_indexes ≡ qualified_indexes s)
        × (t.disqualified_trustee_indexes ≡ sort_by leb s.disqualified)
  unfolding make_transcript
  make_transcript-eq-ok s key keyset t h =
      let (_, h1) = >>-eq-ok (not s.finalized) _ _ h in
      let (_, h2) = >>-eq-ok (v.is_hex key && ltb 4 (length key)) _ _ h1 in
      let (_, h3) = then-eq-ok (require_bytes32 v keyset _) _ h2 in
      let (five, h4) = >>-eq-ok (leb 5 (length (qualified_indexes s))) _ _ h3 in
      let (_, _, h5) = >>=-eq-ok (map_result (both_hashes v s) (qualified_indexes s)) _ h4 in
      let (_, _, h6) = >>=-eq-ok (hash_abi v _) _ h5 in
      let made = ok_inj h6 in
      let same = ap (λ x. x.qualified_trustee_indexes) made in
      (
        subst (λ l. 5 ≤ length l) same (leb→le 5 _ five),
        sym same,
        sym (ap (λ x. x.disqualified_trustee_indexes) made),
      )

  pub finalize-eq-ok :
      (s after : Coordinator) (key keyset : Text) (t : SignedDkgTranscript)
      → finalize v key keyset s ≡ (ok t, after)
      → (make_transcript v s key keyset ≡ ok t) × (after.finalized ≡ true)
  unfolding finalize
  finalize-eq-ok s after key keyset t h =
      let (u, m, made, rest) = and_then-eq-ok (make_transcript v s key keyset, s) _ h in
      (ap (λ p. p.0) made ∙ ap (λ p. p.0) rest, sym (ap (λ p. p.1.finalized) rest))

  qualified_indexes-All :
      (s : Coordinator) → All (λ i. is_qualified s i ≡ true) (qualified_indexes s)
  unfolding qualified_indexes
  qualified_indexes-All s = All-sort_by leb _ _ (filter_index-passes (is_qualified s) _)

  qualified_indexes-IsIncreasing :
      (s : Coordinator) → IsSound v curve s → IsIncreasing (qualified_indexes s)
  unfolding qualified_indexes
  qualified_indexes-IsIncreasing s sound =
      sort_by-IsIncreasing _ (filter_index-IsDistinct (is_qualified s) _ sound.distinct)

  -- When `finalize` returns a transcript, whatever calls came before: it names at least five
  -- trustees, each once, in increasing order; none of them was disqualified; and each has two kept
  -- contributions that verify under its registered key, the first with no parent and the second
  -- with the hash of the first for its parent. The ceremony is then finalized.
  pub transcript-IsQualified :
      (s after : Coordinator) (key keyset : Text) (t : SignedDkgTranscript)
      → Reached v curve s
      → finalize v key keyset s ≡ (ok t, after)
      → (5 ≤ length t.qualified_trustee_indexes)
        × IsIncreasing t.qualified_trustee_indexes
        × All (IsQualified s) t.qualified_trustee_indexes
        × (after.finalized ≡ true)
  transcript-IsQualified s after key keyset t reached h =
      let sound = Reached-IsSound v curve reached in
      let (made, closed) = finalize-eq-ok s after key keyset t h in
      let (five, same, _) = make_transcript-eq-ok s key keyset t made in
      (
        five,
        subst IsIncreasing (sym same) (qualified_indexes-IsIncreasing s sound),
        subst (All (IsQualified s)) (sym same) (
            All-imp (qualified_indexes s) (λ i. is_qualified-IsQualified s i sound)
              (qualified_indexes-All s)),
        closed,
      )

  finalized_add :
      (s : Coordinator) (k : DkgContribution)
      → s.finalized ≡ true
      → add_contribution v curve k s ≡ (err (assertion "ceremony is already finalized"), s)
  unfolding add_contribution check_contribution guard
  finalized_add s k h = rw h refl

  finalized_again :
      (s : Coordinator) (key keyset : Text)
      → s.finalized ≡ true
      → finalize v key keyset s ≡ (err (assertion "ceremony is already finalized"), s)
  unfolding finalize make_transcript guard
  finalized_again s key keyset h = rw h refl

  -- Once `finalize` has returned, both methods throw and change nothing, whatever they are given.
  pub finalize_once :
      (s after : Coordinator) (key keyset : Text) (t : SignedDkgTranscript)
      → finalize v key keyset s ≡ (ok t, after)
      → ((k : DkgContribution)
          → add_contribution v curve k after
            ≡ (err (assertion "ceremony is already finalized"), after))
        × ((key' keyset' : Text)
            → finalize v key' keyset' after
              ≡ (err (assertion "ceremony is already finalized"), after))
  finalize_once s after key keyset t h =
      let closed = (finalize-eq-ok s after key keyset t h).1 in
      (λ k. finalized_add after k closed, λ key' keyset'. finalized_again after key' keyset' closed)
