-- ===== src/Curve/Multiples.antt =====
-- Multiples of a point, as repeated addition.
use scalable_blockchain_voti.Prelude.{ℕ, zero, suc, ◌+◌, ◌*◌, ◌≡◌, sym, ap, ◌∙◌, arith}
use scalable_blockchain_voti.Curve.{Group}

pub record IsGroup {Point : Type 0} (g : Group Point) : Type 0 where
  pub add_assoc : (p q r : Point) → g.add (g.add p q) r ≡ g.add p (g.add q r)
  pub add_comm : (p q : Point) → g.add p q ≡ g.add q p
  pub add-identity : (p : Point) → g.add p g.identity ≡ p
  pub add-negate : (p : Point) → g.add p (g.negate p) ≡ g.identity

module _ {Point : Type 0} (g : Group Point) where
  abbrev pub times : ℕ → Point → Point
  times zero p = g.identity
  times (suc n) p = g.add p (times n p)

module _ {Point : Type 0} (g : Group Point) (laws : IsGroup g) where
  pub identity-add : (p : Point) → g.add g.identity p ≡ p
  identity-add p = laws.add_comm g.identity p ∙ laws.add-identity p

  pub add_interchange :
      (p q r s : Point) → g.add (g.add p q) (g.add r s) ≡ g.add (g.add p r) (g.add q s)
  add_interchange p q r s =
      laws.add_assoc p q (g.add r s)
      ∙ ap (g.add p) (
          sym (laws.add_assoc q r s)
          ∙ ap (λ x. g.add x s) (laws.add_comm q r)
          ∙ laws.add_assoc r q s)
      ∙ sym (laws.add_assoc p r (g.add q s))

  pub times-add : (m n : ℕ) (p : Point) → times g (m + n) p ≡ g.add (times g m p) (times g n p)
  times-add zero n p =
      let e : 0 + n ≡ n = omega arith in ap (λ k. times g k p) e ∙ sym (identity-add (times g n p))
  times-add (suc m) n p =
      let e : suc m + n ≡ suc (m + n) = omega arith in
      ap (λ k. times g k p) e
      ∙ ap (g.add p) (times-add m n p)
      ∙ sym (laws.add_assoc p (times g m p) (times g n p))

  pub times_add : (n : ℕ) (p q : Point) → times g n (g.add p q) ≡ g.add (times g n p) (times g n q)
  times_add zero p q = sym (laws.add-identity g.identity)
  times_add (suc n) p q =
      ap (g.add (g.add p q)) (times_add n p q) ∙ add_interchange p q (times g n p) (times g n q)

  pub times-mul : (m n : ℕ) (p : Point) → times g (m * n) p ≡ times g m (times g n p)
  times-mul zero n p = (let e : 0 * n ≡ 0 = ground arith in ap (λ k. times g k p) e)
  times-mul (suc m) n p =
      let e : suc m * n ≡ n + m * n = ground arith in
      ap (λ k. times g k p) e ∙ times-add n (m * n) p ∙ ap (g.add (times g n p)) (times-mul m n p)

  pub times_comm : (m n : ℕ) (p : Point) → times g m (times g n p) ≡ times g n (times g m p)
  times_comm m n p = sym (times-mul m n p) ∙ ap (λ k. times g k p) (ground arith) ∙ times-mul n m p

  -- What is added and taken away again.
  pub add-cancel : (p q : Point) → g.add (g.add p q) (g.negate p) ≡ q
  add-cancel p q =
      ap (λ x. g.add x (g.negate p)) (laws.add_comm p q)
      ∙ laws.add_assoc q p (g.negate p)
      ∙ ap (g.add q) (laws.add-negate p)
      ∙ laws.add-identity q
