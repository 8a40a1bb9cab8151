-- ===== src/Elgamal/Pairs.antt =====
-- Lists of pairs laid out flat, and the pair of points at a place of a ciphertext.
use scalable_blockchain_voti.Prelude.{
  ℕ, zero, suc, ◌+◌, ◌*◌, ◌<◌, ◌≤◌, ◌≡◌, refl, ap, ◌∙◌, subst, true, some, some_inj, List, [], ◌∷◌,
  length, get_elem?, drop, All, arith,
}
use scalable_blockchain_voti.Outcome.{Label, ok, >>=-eq-ok, ok_inj}
use scalable_blockchain_voti.Js.Texts.{Text, text, lower, lower_unit}
use scalable_blockchain_voti.Viem.{Viem}
use scalable_blockchain_voti.Merkle.{present}
use scalable_blockchain_voti.Package.Accepted.{is_point, assert_compressed_point_iff}
use scalable_blockchain_voti.Package.Ciphertext.{BallotCiphertext}
use scalable_blockchain_voti.Dkg.Coordinator.{flatten}
use scalable_blockchain_voti.Curve.{Curve, point_from_hex, point_to_hex}
use scalable_blockchain_voti.Curve.Laws.{IsCurve}
use scalable_blockchain_voti.Elgamal.{range, point_at}

pub length-flatten : (ps : List (Text × Text)) → length (flatten ps) ≡ length ps * 2
unfolding flatten
length-flatten [] = refl
length-flatten (p ∷ ps) = let rest = length-flatten ps in omega (arith, rest)

pub get_elem?-flatten :
    (ps : List (Text × Text)) (i : ℕ) {p : Text × Text}
    → get_elem? ps i ≡ some p
    → (get_elem? (flatten ps) (i * 2) ≡ some p.0) × (get_elem? (flatten ps) (i * 2 + 1) ≡ some p.1)
unfolding flatten
get_elem?-flatten [] i h = cc
get_elem?-flatten ((a, b) ∷ ps) zero h =
    (ap (λ q. some q.0) (some_inj h), ap (λ q. some q.1) (some_inj h))
get_elem?-flatten ((a, b) ∷ ps) (suc i) h =
    let e : suc i * 2 ≡ suc (suc (i * 2)) = omega arith in
    let f : suc i * 2 + 1 ≡ suc (suc (i * 2 + 1)) = omega arith in
    let (one, two) = get_elem?-flatten ps i h in (rw e one, rw f two)

pub All-flatten :
    (P : Text → Type 0) (ps : List (Text × Text)) → All (λ p. P p.0 × P p.1) ps → All P (flatten ps)
unfolding flatten
All-flatten P [] h = tt
All-flatten P ((a, b) ∷ ps) h = (h.0.0, (h.0.1, All-flatten P ps h.1))

pub length-range : (from count : ℕ) → length (range from count) ≡ count
unfolding range
length-range from zero = refl
length-range from (suc count) = ap suc (length-range (from + 1) count)

pub get_elem?-range :
    (from count i : ℕ) → i < count → get_elem? (range from count) i ≡ some (from + i)
unfolding range
get_elem?-range from zero i h = absurd (omega (arith, h))
get_elem?-range from (suc count) zero h = ap some (omega arith)
get_elem?-range from (suc count) (suc i) h =
    get_elem?-range (from + 1) count i (omega (arith, h)) ∙ ap some next
  where
    next : from + 1 + i ≡ from + suc i
    next = omega arith

pub range_below :
    (from count bound : ℕ) → from + count ≤ bound → All (λ i. i < bound) (range from count)
unfolding range
range_below from zero bound h = tt
range_below from (suc count) bound h =
    (omega (arith, h), range_below (from + 1) count bound (omega (arith, h)))

module _ {Point : Type 0} (v : Viem) (c : Curve Point) where
  -- The pair of points at a place of a ciphertext.
  pub record IsPair (ciphertext : BallotCiphertext) (i : ℕ) (p q : Point) : Type 0 where
    pub first : Text
    pub second : Text
    pub first_there : get_elem? ciphertext.points (i * 2) ≡ some first
    pub second_there : get_elem? ciphertext.points (i * 2 + 1) ≡ some second
    pub first_point : is_point v first ≡ true
    pub second_point : is_point v second ≡ true
    pub first_read : c.from_hex (drop 2 first) ≡ ok p
    pub second_read : c.from_hex (drop 2 second) ≡ ok q

  point_at_total :
      (label : ℕ → Label) (ciphertext : BallotCiphertext) (place : ℕ) (s : Text) (p : Point)
      → get_elem? ciphertext.points place ≡ some s
      → is_point v s ≡ true
      → c.from_hex (drop 2 s) ≡ ok p
      → point_at v c label ciphertext place ≡ ok p
  unfolding point_at present point_from_hex
  point_at_total label ciphertext place s p there good read =
      rw (there, (assert_compressed_point_iff v s (label place)).1 good) read

  pub first_at :
      (label : ℕ → Label) (ciphertext : BallotCiphertext) (i : ℕ) (p q : Point)
      → IsPair ciphertext i p q
      → point_at v c label ciphertext (i * 2) ≡ ok p
  first_at label ciphertext i p q h =
      point_at_total label ciphertext (i * 2) h.first p h.first_there h.first_point h.first_read

  pub second_at :
      (label : ℕ → Label) (ciphertext : BallotCiphertext) (i : ℕ) (p q : Point)
      → IsPair ciphertext i p q
      → point_at v c label ciphertext (i * 2 + 1) ≡ ok q
  second_at label ciphertext i p q h =
      point_at_total label ciphertext (i * 2 + 1) h.second q h.second_there h.second_point
        h.second_read

  -- Hex that was written is a normal point, and is read back.
  pub point_to_hex-eq-ok :
      IsCurve v c
      → (p : Point) (s : Text) → point_to_hex c p ≡ ok s
      → (is_point v s ≡ true) × (lower s ≡ s) × (c.from_hex (drop 2 s) ≡ ok p)
  unfolding point_to_hex
  point_to_hex-eq-ok laws p s h =
      let (digits, made, e) = >>=-eq-ok (c.to_hex p) _ h in
      subst (λ t. (is_point v t ≡ true) × (lower t ≡ t) × (c.from_hex (drop 2 t) ≡ ok p)) (ok_inj e)
        (
          laws.to_hex_point p digits made,
          unfold lower lower_unit text in
              ap (λ (l : Text). let r : Text = 48 ∷ 120 ∷ l in r)
                (laws.to_hex_lowered p digits made),
          unfold text in laws.from_hex-to_hex p digits made,
        )
