-- ===== src/Examples/Ring.antt =====
-- A curve as a concrete value: five points, with the hex of a digit.
use scalable_blockchain_voti.Prelude.{
  ℕ, zero, suc, ◌+◌, ◌<◌, ◌≡◌, refl, sym, ap, ◌∙◌, Bool, true, false, ◌&&◌, [], ◌∷◌, ◌++◌, subst,
  drop, ltb, ◌==◌, arith, if◌then◌else◌,
}
use scalable_blockchain_voti.Outcome.{Result, ok, err, library, ok_inj, guard, ◌>>◌, >>-eq-ok}
use scalable_blockchain_voti.Js.Texts.{Text, text, lower, lower_unit, text_eq}
use scalable_blockchain_voti.Package.Points.{has_point_prefix}
use scalable_blockchain_voti.Package.Accepted.{is_point}
use scalable_blockchain_voti.Tally.Shares.{hex_digits}
use scalable_blockchain_voti.Curve.{Group, Curve}
use scalable_blockchain_voti.Curve.Multiples.{IsGroup, times}
use scalable_blockchain_voti.Curve.Laws.{IsCurve}
use scalable_blockchain_voti.Examples.Toy.{toy, strict_hex, are_digits, is_digit}

pub data Five : Type 0 where
  p0 p1 p2 p3 p4 : Five

abbrev next : Five → Five
next p0 = p1
next p1 = p2
next p2 = p3
next p3 = p4
next p4 = p0

abbrev plus : Five → Five → Five
plus p0 q = q
plus p1 q = next q
plus p2 q = next (next q)
plus p3 q = next (next (next q))
plus p4 q = next (next (next (next q)))

abbrev opposite : Five → Five
opposite p0 = p0
opposite p1 = p4
opposite p2 = p3
opposite p3 = p2
opposite p4 = p1

next_five : (p : Five) → next (next (next (next (next p)))) ≡ p
next_five p0 = refl
next_five p1 = refl
next_five p2 = refl
next_five p3 = refl
next_five p4 = refl

next_plus : (p q : Five) → plus (next p) q ≡ next (plus p q)
next_plus p0 q = refl
next_plus p1 q = refl
next_plus p2 q = refl
next_plus p3 q = refl
next_plus p4 q = sym (next_five q)

plus-next : (p q : Five) → plus p (next q) ≡ next (plus p q)
plus-next p0 q = refl
plus-next p1 q = refl
plus-next p2 q = refl
plus-next p3 q = refl
plus-next p4 q = refl

plus_p0 : (p : Five) → plus p p0 ≡ p
plus_p0 p0 = refl
plus_p0 p1 = refl
plus_p0 p2 = refl
plus_p0 p3 = refl
plus_p0 p4 = refl

step : (p q : Five) → plus p q ≡ plus q p → plus (next p) q ≡ plus q (next p)
step p q e = next_plus p q ∙ ap next e ∙ sym (plus-next q p)

plus_comm : (p q : Five) → plus p q ≡ plus q p
plus_comm p0 q = sym (plus_p0 q)
plus_comm p1 q = step p0 q (sym (plus_p0 q))
plus_comm p2 q = step p1 q (step p0 q (sym (plus_p0 q)))
plus_comm p3 q = step p2 q (step p1 q (step p0 q (sym (plus_p0 q))))
plus_comm p4 q = step p3 q (step p2 q (step p1 q (step p0 q (sym (plus_p0 q)))))

two_plus : (q r : Five) → plus (next (next q)) r ≡ next (next (plus q r))
two_plus q r = next_plus (next q) r ∙ ap next (next_plus q r)

three_plus : (q r : Five) → plus (next (next (next q))) r ≡ next (next (next (plus q r)))
three_plus q r = next_plus (next (next q)) r ∙ ap next (two_plus q r)

plus_assoc : (p q r : Five) → plus (plus p q) r ≡ plus p (plus q r)
plus_assoc p0 q r = refl
plus_assoc p1 q r = next_plus q r
plus_assoc p2 q r = two_plus q r
plus_assoc p3 q r = three_plus q r
plus_assoc p4 q r = next_plus (next (next (next q))) r ∙ ap next (three_plus q r)

plus-opposite : (p : Five) → plus p (opposite p) ≡ p0
plus-opposite p0 = refl
plus-opposite p1 = refl
plus-opposite p2 = refl
plus-opposite p3 = refl
plus-opposite p4 = refl

abbrev pub five : Group Five
five = record { identity = p0; add = plus; negate = opposite }

pub five_laws : IsGroup five
five_laws = record {
  add_assoc = plus_assoc;
  add_comm = plus_comm;
  add-identity = plus_p0;
  add-negate = plus-opposite;
}

abbrev number : Five → ℕ
number p0 = 0
number p1 = 1
number p2 = 2
number p3 = 3
number p4 = 4

abbrev same : Five → Five → Bool
same p q = number p == number q

abbrev hex_of : ℕ → Text
hex_of n = text "02000000000000000000000000000000000000000000000000000000000000000" ++ (48 + n) ∷ []

unfoldable pub write_point : Five → Result Text
write_point p0 = err library
write_point p1 = ok (hex_of 1)
write_point p2 = ok (hex_of 2)
write_point p3 = ok (hex_of 3)
write_point p4 = ok (hex_of 4)

abbrev of_digit : Text → Five
of_digit [] = p0
of_digit (c ∷ s) =
    if c == 49
    then p1
    else if c == 50
    then p2
    else if c == 51
    then p3
    else if c == 52
    then p4
    else p0

unfoldable pub read_point : Text → Result Five
read_point s = ok (of_digit (drop 65 s))

abbrev pub ring : Curve Five
ring = record {
  group = five;
  order = 5;
  base = p1;
  multiply = λ p n. guard (ltb 0 n && ltb n 5) library >> ok (times five n p);
  equals = same;
  to_hex = write_point;
  from_hex = read_point;
  get_public_key = λ s. write_point (times five (hex_digits 0 (lower s)) p1);
}

number-times : (n : ℕ) → n < 5 → number (times five n p1) ≡ n
number-times zero h = refl
number-times (suc zero) h = refl
number-times (suc (suc zero)) h = refl
number-times (suc (suc (suc zero))) h = refl
number-times (suc (suc (suc (suc zero)))) h = refl
number-times (suc (suc (suc (suc (suc n))))) h = absurd (omega (arith, h))

of_same : (p q : Five) → same p q ≡ true → p ≡ q
of_same p q h = of_number p ∙ ap point_of numbers ∙ sym (of_number q)
  where
    numbers : number p ≡ number q
    numbers = ground (arith, h)

    point_of : ℕ → Five
    point_of n = times five n p1

    of_number : (p : Five) → p ≡ point_of (number p)
    of_number p0 = refl
    of_number p1 = refl
    of_number p2 = refl
    of_number p3 = refl
    of_number p4 = refl

read_written : (p : Five) (s : Text) → write_point p ≡ ok s → read_point s ≡ ok p
unfolding write_point read_point text
read_written p0 s h = cc
read_written p1 s h = ap (λ s. read_point s) (sym (ok_inj h))
read_written p2 s h = ap (λ s. read_point s) (sym (ok_inj h))
read_written p3 s h = ap (λ s. read_point s) (sym (ok_inj h))
read_written p4 s h = ap (λ s. read_point s) (sym (ok_inj h))

-- What is known of the hex of a point other than the identity.
abbrev IsWritten : Text → Type 0
IsWritten s = (is_point toy (text "0x" ++ s) ≡ true) × (lower s ≡ s)

written : (p : Five) (s : Text) → write_point p ≡ ok s → IsWritten s
unfolding write_point text lower lower_unit strict_hex are_digits is_digit has_point_prefix text_eq
written p0 s h = cc
written p1 s h = subst IsWritten (ok_inj h) (refl, refl)
written p2 s h = subst IsWritten (ok_inj h) (refl, refl)
written p3 s h = subst IsWritten (ok_inj h) (refl, refl)
written p4 s h = subst IsWritten (ok_inj h) (refl, refl)

pub ring_laws : IsCurve toy ring
unfolding write_point guard
ring_laws = record {
  group_laws = five_laws;
  multiply_total = λ p n low high. rw (lt→ltb 0 n low, lt→ltb n 5 high) refl;
  multiply_is = λ p q n h. sym (ok_inj ((>>-eq-ok _ library _ h).1));
  base_order = λ m n hm hn e. sym (number-times m hm) ∙ ap number e ∙ number-times n hn;
  base_times_order = refl;
  equals_iff = λ p q. (of_same p q, λ e. subst (λ q. same p q ≡ true) e (ground arith));
  to_hex_total = hex_total;
  from_hex-to_hex = read_written;
  to_hex_point = λ p s h. (written p s h).0;
  to_hex_lowered = λ p s h. (written p s h).1;
  public_key_is = λ s low high. refl;
}
  where
    lt→ltb : (m n : ℕ) → m < n → ltb m n ≡ true
    lt→ltb m n h = ground arith

    hex_total : (p : Five) → same p p0 ≡ false → (s : Text) × (write_point p ≡ ok s)
    hex_total p0 h = cc
    hex_total p1 h = (hex_of 1, refl)
    hex_total p2 h = (hex_of 2, refl)
    hex_total p3 h = (hex_of 3, refl)
    hex_total p4 h = (hex_of 4, refl)
