-- ===== src/Nullifiers/Batched.antt =====
-- What the batch builders of the two later pipelines share: they prepare, call `addMany` and seal,
-- and between these steps others may call the accumulator.
use scalable_blockchain_voti.Prelude.{◌≡◌, sym, ap, ◌∙◌, List, map, ◌++◌, subst}
use scalable_blockchain_voti.Outcome.{Result, ok}
use scalable_blockchain_voti.Outcome.Stateful.{and_then, and_then-eq-ok}
use scalable_blockchain_voti.Js.Texts.{Text, lower}
use scalable_blockchain_voti.Viem.{Viem}
use scalable_blockchain_voti.Viem.Laws.{Laws}
use scalable_blockchain_voti.Nullifiers.{NullifierAccumulator, Others, add_many}
use scalable_blockchain_voti.Nullifiers.Adding.{IsValid, add_many-IsValid, add_many_seen}

module _ (v : Viem) where
  -- Calls of `addMany`, returned or thrown, that lead from one accumulator to another: no other
  -- method changes it, and `add` is `addMany` of one.
  pub data Grown (before : NullifierAccumulator) : NullifierAccumulator → Type 0 where
    untouched : Grown before before
    called :
        {middle : NullifierAccumulator}
        → (nullifiers : List Text) → Grown before middle
        → Grown before (add_many v nullifiers middle).1

  pub Grown-IsValid :
      Laws v
      → {before after : NullifierAccumulator} → Grown before after
      → IsValid v before
      → IsValid v after
  Grown-IsValid laws untouched valid = valid
  Grown-IsValid laws (called nullifiers g) valid =
      add_many-IsValid v laws nullifiers _ (Grown-IsValid laws g valid)

  -- Others do no more than call `addMany`.
  pub record IsCalling (others : Others) : Type 0 where
    pub validating_grows : (a : NullifierAccumulator) → Grown a (others.validating a)
    pub summing_grows : (a : NullifierAccumulator) → Grown a (others.summing a)

  -- A builder that returned has returned at its three steps.
  pub built_steps :
      {P M : Type 0} (others : Others) (prepared : Result P) (nullifiers : P → List Text)
      (seal : P → NullifierAccumulator → Result M) (before : NullifierAccumulator) (m : M)
      (after : NullifierAccumulator)
      → and_then
          (prepared, others.validating before)
          (λ p b.
            and_then
              (add_many v (nullifiers p) b)
              (λ _ a. (seal p (others.summing a), others.summing a)))
        ≡ (ok m, after)
      → (p : P) × (prepared ≡ ok p)
        × (added : NullifierAccumulator) × (add_many v (nullifiers p) (others.validating before)
            ≡ (ok tt, added))
        × (others.summing added ≡ after)
        × (seal p after ≡ ok m)
  built_steps others prepared nullifiers seal before m after h =
      let (p, s, e, h1) = and_then-eq-ok (prepared, others.validating before) _ h in
      let (_, added, taken, h2) = and_then-eq-ok (add_many v (nullifiers p) s) _ h1 in
      let same : others.validating before ≡ s = ap (λ r. r.1) e in
      let end : others.summing added ≡ after = ap (λ r. r.1) h2 in
      (
        p,
        ap (λ r. r.0) e,
        added,
        ap (add_many v (nullifiers p)) same ∙ taken,
        end,
        ap (seal p) (sym end) ∙ ap (λ r. r.0) h2,
      )

  -- What the accumulator holds after it has taken them, and that others have left it valid.
  pub taken-IsValid :
      Laws v
      → (others : Others) → IsCalling others
      → (nullifiers : List Text) (before added after : NullifierAccumulator) → IsValid v before
      → add_many v nullifiers (others.validating before) ≡ (ok tt, added)
      → others.summing added ≡ after
      → (added.seen ≡ (others.validating before).seen ++ map lower nullifiers) × IsValid v after
  taken-IsValid laws others calling nullifiers before added after valid taken end =
      let start = Grown-IsValid laws (calling.validating_grows before) valid in
      let middle : IsValid v added =
        subst (IsValid v) (ap (λ r. r.1) taken)
          (add_many-IsValid v laws nullifiers (others.validating before) start) in
      (
        ap (λ r. r.1.seen) (sym taken)
            ∙ (add_many_seen v nullifiers (others.validating before) (ap (λ r. r.0) taken)).0,
        subst (IsValid v) end (Grown-IsValid laws (calling.summing_grows added) middle),
      )
