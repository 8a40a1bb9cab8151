-- ===== src/Nullifiers/Adding.antt =====
-- What `add` and `addMany` do on each branch, and what they keep.
use mathlib.Core.List.{append-nil, append_assoc}
use scalable_blockchain_voti.Prelude.{
  ◌≡◌, refl, sym, ap, ◌∙◌, ◌↔◌, true, false, ◌&&◌, not, List, [], ◌∷◌, ◌++◌, map, arith, ◌⊎◌, inl,
  inr, Bool-cases, All, All-append, subst, if◌then◌else◌,
}
use scalable_blockchain_voti.Outcome.{plain, assertion, labelled, Error, Result, ok, err, guard}
use scalable_blockchain_voti.Js.Texts.{Text, lower}
use scalable_blockchain_voti.Js.Sets.{member, IsUnique, IsUnique-concat, not-member_of_IsUnique}
use scalable_blockchain_voti.Viem.{Viem, is_bytes32, assert_bytes32}
use scalable_blockchain_voti.Viem.Laws.{Laws, IsDigest, lower-IsDigest}
use scalable_blockchain_voti.Nullifiers.{NullifierAccumulator, has, check_new, add, add_many}

-- The error that `add` throws for a nullifier that it does not take.
abbrev pub add_error : (v : Viem) → Text → Error
add_error v nullifier =
    if is_bytes32 v nullifier
    then assertion "duplicate ballot nullifier"
    else labelled (plain "ballotNullifier") "must be a 32-byte hex string"

abbrev pub added : Text → NullifierAccumulator → NullifierAccumulator
added nullifier accumulator = record { seen = accumulator.seen ++ lower nullifier ∷ [] }

module _ (v : Viem) where
  -- `add` takes a 32-byte nullifier that is not there yet, in either case of its letters; any other
  -- it refuses with its own error, and the accumulator stays as it was.
  pub add_lem :
      (nullifier : Text) (accumulator : NullifierAccumulator)
      → add v nullifier accumulator ≡ (
          if is_bytes32 v nullifier && not (has accumulator nullifier)
          then (ok tt, added nullifier accumulator)
          else (err (add_error v nullifier), accumulator))
  unfolding add check_new assert_bytes32 guard
  add_lem nullifier accumulator = ground arith

  -- Each nullifier is normalised and there once.
  pub record IsValid (accumulator : NullifierAccumulator) : Type 0 where
    pub unique : IsUnique accumulator.seen
    pub digests : All (IsDigest v) accumulator.seen

  check_new_cases :
      (nullifier : Text) (accumulator : NullifierAccumulator)
      → ((is_bytes32 v nullifier ≡ true)
          × (has accumulator nullifier ≡ false)
          × (add v nullifier accumulator ≡ (ok tt, added nullifier accumulator)))
        ⊎ (add v nullifier accumulator ≡ (err (add_error v nullifier), accumulator))
  check_new_cases nullifier accumulator =
      elim (Bool-cases (is_bytes32 v nullifier && not (has accumulator nullifier))) [
        | inl new ↦ inl (ground arith, ground arith, add_lem nullifier accumulator ∙ rw new refl)
        | inr old ↦ inr (add_lem nullifier accumulator ∙ rw old refl)
      ]

  added-IsValid :
      Laws v
      → (nullifier : Text) (accumulator : NullifierAccumulator) → is_bytes32 v nullifier ≡ true
      → has accumulator nullifier ≡ false
      → IsValid accumulator
      → IsValid (added nullifier accumulator)
  unfolding has
  added-IsValid laws nullifier accumulator well new valid = record {
    unique = IsUnique-concat accumulator.seen (lower nullifier) valid.unique new;
    digests =
        All-append (IsDigest v) accumulator.seen (lower nullifier ∷ []) valid.digests
          (lower-IsDigest v laws nullifier well, tt);
  }

  -- `addMany` keeps the invariant, whether it returns or throws in the middle.
  pub add_many-IsValid :
      Laws v
      → (nullifiers : List Text) (accumulator : NullifierAccumulator) → IsValid accumulator
      → IsValid (add_many v nullifiers accumulator).1
  unfolding add_many
  add_many-IsValid laws [] accumulator valid = valid
  add_many-IsValid laws (n ∷ nullifiers) accumulator valid = elim (check_new_cases n accumulator) [
    | inl (well, new, e) ↦ rw e (
        add_many-IsValid laws nullifiers (added n accumulator)
          (added-IsValid laws n accumulator well new valid))
    | inr e ↦ rw e valid
  ]

  -- What `addMany` leaves when it returns.
  pub add_many_seen :
      (nullifiers : List Text) (accumulator : NullifierAccumulator)
      → (add_many v nullifiers accumulator).0 ≡ ok tt
      → ((add_many v nullifiers accumulator).1.seen ≡ accumulator.seen ++ map lower nullifiers)
        × All (λ n. is_bytes32 v n ≡ true) nullifiers
  unfolding add_many
  add_many_seen [] accumulator h = (sym (append-nil accumulator.seen), tt)
  add_many_seen (n ∷ nullifiers) accumulator h = elim (check_new_cases n accumulator) [
    | inl (well, new, e) ↦
        let rest = add_many_seen nullifiers (added n accumulator) (rw e at h) in
        (
          rw e (rest.0 ∙ append_assoc accumulator.seen (lower n ∷ []) (map lower nullifiers)),
          (well, rest.1),
        )
    | inr e ↦ absurd (cc e)
  ]

  add_many_total :
      (nullifiers : List Text) (accumulator : NullifierAccumulator)
      → All (λ n. is_bytes32 v n ≡ true) nullifiers
      → IsUnique (accumulator.seen ++ map lower nullifiers)
      → (add_many v nullifiers accumulator).0 ≡ ok tt
  unfolding add_many
  add_many_total [] accumulator h u = refl
  add_many_total (n ∷ nullifiers) accumulator h u =
      let absent : has accumulator n ≡ false =
        unfold has in not-member_of_IsUnique accumulator.seen (lower n) (map lower nullifiers) u in
      let taken : add v n accumulator ≡ (ok tt, added n accumulator) =
        add_lem n accumulator ∙ rw (h.0, absent) refl in
      rw taken (add_many_total nullifiers (added n accumulator) h.1 (rw append_assoc u))

  -- From a valid accumulator `addMany` returns exactly if every nullifier is a 32-byte hex string
  -- and, in lower case, none occurs twice among those already there and those to add.
  pub add_many_iff :
      Laws v
      → (nullifiers : List Text) (accumulator : NullifierAccumulator) → IsValid accumulator
      → ((add_many v nullifiers accumulator).0 ≡ ok tt) ↔ (
          All (λ n. is_bytes32 v n ≡ true) nullifiers
          × IsUnique (accumulator.seen ++ map lower nullifiers))
  add_many_iff laws nullifiers accumulator valid = (
    λ returned.
        let (seen, well) = add_many_seen nullifiers accumulator returned in
        (well, subst IsUnique seen (add_many-IsValid laws nullifiers accumulator valid).unique),
    λ h. add_many_total nullifiers accumulator h.0 h.1,
  )

  -- When `addMany` meets a nullifier that it refuses, it throws that one's error, those before it
  -- stay in the accumulator, and those after it are not looked at.
  pub add_many_partial :
      (good : List Text) (bad : Text) (rest : List Text) (accumulator : NullifierAccumulator)
      → (add_many v good accumulator).0 ≡ ok tt
      → (is_bytes32 v bad && not (member (lower bad) (accumulator.seen ++ map lower good))) ≡ false
      → add_many v (good ++ bad ∷ rest) accumulator
        ≡ (err (add_error v bad), record { seen = accumulator.seen ++ map lower good })
  unfolding add_many
  add_many_partial [] bad rest accumulator h refused =
      let refused' : (is_bytes32 v bad && not (has accumulator bad)) ≡ false =
        unfold has in rw append-nil at refused in
      rw (add_lem bad accumulator, refused', append-nil) refl
  add_many_partial (n ∷ good) bad rest accumulator h refused =
      elim (check_new_cases n accumulator) [
        | inl (well, new, e) ↦ rw e (
            add_many_partial good bad rest (added n accumulator) (rw e at h)
              (rw append_assoc refused)
            ∙ ap
                (λ (s : List Text).
                  let r : Result (Unit {0}) × NullifierAccumulator =
                    (err (add_error v bad), record { seen = s }) in
                  r)
                (append_assoc accumulator.seen (lower n ∷ []) (map lower good)))
        | inr e ↦ absurd (cc e)
      ]
