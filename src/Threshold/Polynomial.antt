-- ===== src/Threshold/Polynomial.antt =====
-- The key shares are the values of a polynomial.
use native.Mathlib.Nat.{
  mod-add-mod, mod-mod, add-mul-mod_self_left, mod-eq_of_lt, mod-lt, mod-add-div,
}
use scalable_blockchain_voti.Prelude.{
  ℕ, suc, ◌+◌, ◌-◌, ◌*◌, ◌/◌, ◌%◌, ◌<◌, ◌≡◌, refl, sym, ap, ◌∙◌, subst, some, none, Option, List,
  [], ◌∷◌, length, get_elem?, arith, ltb, ltb→lt, ◌==◌, and_right,
}
use scalable_blockchain_voti.Outcome.{
  Label, ok, guard-eq-ok, map_result, >>=-eq-ok, >>-eq-ok, then-eq-ok, ok_inj,
}
use scalable_blockchain_voti.Outcome.Mapping.{map_result_at, length-map_result}
use scalable_blockchain_voti.Js.Texts.{Text, lower}
use scalable_blockchain_voti.Js.Numbers.{Number, is_integer, at_least, to_natural}
use scalable_blockchain_voti.Js.Integers.{mod_order}
use scalable_blockchain_voti.Viem.{Viem}
use scalable_blockchain_voti.Viem.Laws.{assert_bytes32-eq-ok}
use scalable_blockchain_voti.Tally.{hash_election_public_key}
use scalable_blockchain_voti.Tally.Shares.{scalar_from_private_key, scalar_from_hex}
use scalable_blockchain_voti.Curve.{Curve, point_to_hex}
use scalable_blockchain_voti.Curve.Multiples.{times}
use scalable_blockchain_voti.Curve.Laws.{IsCurve}
use scalable_blockchain_voti.Elgamal.{range}
use scalable_blockchain_voti.Elgamal.Pairs.{length-range, get_elem?-range}
use scalable_blockchain_voti.Threshold.{
  ThresholdKeyShare, ThresholdElectionKeySet, share_loop, scalar_to_hex, given_coefficients,
  pick_secret, check_coefficients, pick_coefficients, key_share,
  create_threshold_election_key_shares,
}

-- The value of a polynomial, from the constant term up.
unfoldable pub evaluate : ℕ → List ℕ → ℕ
evaluate x [] = 0
evaluate x (a ∷ coefficients) = a + x * evaluate x coefficients

-- A factor may be reduced.
mul_reduced : (o u a b : ℕ) → (u + a % o * b) % o ≡ (u + a * b) % o
mul_reduced o u a b =
    sym (add-mul-mod_self_left (u + a % o * b) o (a / o * b))
    ∙ ap (λ n. n % o) (regroup u (a % o) b o (a / o) ∙ ap (λ n. u + n * b) (mod-add-div a o))
  where
    regroup : (u r b o q : ℕ) → u + r * b + o * (q * b) ≡ u + (r + o * q) * b
    regroup u r b o q = grind arith

pub share_loop-evaluate :
    (o x : ℕ) (coefficients : List ℕ) (y power : ℕ)
    → y < o
    → share_loop o x coefficients y power ≡ (y + power * evaluate x coefficients) % o
unfolding share_loop mod_order evaluate
share_loop-evaluate o x [] y power h = sym (mod-eq_of_lt h) ∙ ap (λ n. n % o) (ground arith)
share_loop-evaluate o x (a ∷ coefficients) y power h =
    share_loop-evaluate o x coefficients ((y + a * power) % o) (power * x % o)
      (mod-lt (y + a * power) (omega (arith, h)))
    ∙ mod-add-mod (y + a * power) o (power * x % o * evaluate x coefficients)
    ∙ mul_reduced o (y + a * power) (power * x) (evaluate x coefficients)
    ∙ ap (λ n. n % o) (ground arith)

-- `scalarToHex` reduces its argument.
scalar_to_hex-reduced : (o n : ℕ) → scalar_to_hex o (n % o) ≡ scalar_to_hex o n
unfolding scalar_to_hex mod_order
scalar_to_hex-reduced o n = rw (mod-mod n o) refl

length-given_coefficients :
    (v : Viem) (o i : ℕ) (given : List Text) {scalars : List ℕ}
    → given_coefficients v o i given ≡ ok scalars
    → length scalars ≡ length given
unfolding given_coefficients
length-given_coefficients v o i [] h = ap length (sym (ok_inj h))
length-given_coefficients v o i (a ∷ given) h =
    let (s, _, h1) = >>=-eq-ok (scalar_from_hex v o a _) _ h in
    let (rest, made, h2) = >>=-eq-ok (given_coefficients v o (i + 1) given) _ h1 in
    ap length (sym (ok_inj h2)) ∙ ap suc (length-given_coefficients v o (i + 1) given made)

scalar_below :
    (v : Viem) (o : ℕ) (key : Text) (label : Label) {n : ℕ}
    → scalar_from_private_key v o key label ≡ ok n
    → n < o
unfolding scalar_from_private_key
scalar_below v o key label h =
    let (_, h1) = assert_bytes32-eq-ok v key label _ h in
    let (inside, h2) = >>-eq-ok _ _ _ h1 in
    subst (λ n. n < o) (ok_inj h2) (ltb→lt _ o (and_right (ltb 0 _) _ inside))

module _ {Point : Type 0} (v : Viem) (c : Curve Point) (curve : IsCurve v c) where
  pick_secret_below :
      (fresh : Text) (key : Option Text) {n : ℕ} → pick_secret v c fresh key ≡ ok n → n < c.order
  unfolding pick_secret scalar_from_hex
  pick_secret_below fresh none h = scalar_below v c.order fresh _ h
  pick_secret_below fresh (some key) h = scalar_below v c.order (lower key) _ h

  length-pick_coefficients :
      (fresh : ℕ → Text) (threshold : ℕ) (given : Option (List Text)) {scalars : List ℕ}
      → check_coefficients v c threshold given ≡ ok tt
      → pick_coefficients v c fresh threshold given ≡ ok scalars
      → length scalars ≡ threshold - 1
  unfolding pick_coefficients
  length-pick_coefficients fresh threshold none checked h =
      length-map_result _ _ _ h ∙ length-range 0 (threshold - 1)
  length-pick_coefficients fresh threshold (some given) checked h =
      let fits = guard-eq-ok (length given == threshold - 1) _ checked in
      length-given_coefficients v c.order 0 given h ∙ ground (arith, fits)

  -- A share's private part is the value of the polynomial at its index, its public part the point.
  pub record IsShareOf (secret : ℕ) (scalars : List ℕ) (index : ℕ) (share : ThresholdKeyShare)
      : Type 0 where
    pub index_kept : share.trustee_index ≡ index
    pub private_is :
        scalar_to_hex c.order (evaluate index (secret ∷ scalars)) ≡ ok share.private_share
    pub public_is :
        point_to_hex c (times c.group (evaluate index (secret ∷ scalars) % c.order) c.base)
        ≡ ok share.public_share

  key_share-IsShareOf :
      (secret : ℕ) (scalars : List ℕ) (index : ℕ) (share : ThresholdKeyShare)
      → secret < c.order
      → key_share v c secret scalars index ≡ ok share
      → IsShareOf secret scalars index share
  unfolding key_share evaluate
  key_share-IsShareOf secret scalars index share below h =
      let y = share_loop c.order index scalars secret index in
      let value : y ≡ (secret + index * evaluate index scalars) % c.order =
        share_loop-evaluate c.order index scalars secret index below in
      let (private, private_made, h1) = >>=-eq-ok (scalar_to_hex c.order y) _ h in
      let (point, point_made, h2) = >>=-eq-ok (c.multiply c.base y) _ h1 in
      let (public, public_made, h3) = >>=-eq-ok (point_to_hex c point) _ h2 in
      subst (IsShareOf secret scalars index) (ok_inj h3) (record {
        index_kept = refl;
        private_is =
            sym (scalar_to_hex-reduced c.order (secret + index * evaluate index scalars))
            ∙ ap (scalar_to_hex c.order) (sym value)
            ∙ private_made;
        public_is =
            ap (λ n. point_to_hex c (times c.group n c.base)) (sym value)
            ∙ ap (point_to_hex c) (sym (curve.multiply_is c.base point y point_made))
            ∙ public_made;
      })

  -- When `createThresholdElectionKeyShares` returns, there is a polynomial of threshold coefficients,
  -- the first below the order, such that the public key is the point of the first coefficient and
  -- the share of each trustee, from 1 to the number of trustees, is the polynomial's value at the
  -- trustee's index modulo the order, with the point of that value.
  pub create_threshold_election_key_shares-evaluate :
      (fresh_key : Text) (fresh : ℕ → Text) (private_key : Option Text)
      (threshold trustee_count : Number) (coefficients : Option (List Text))
      (set : ThresholdElectionKeySet)
      → create_threshold_election_key_shares v c fresh_key fresh private_key threshold trustee_count
          coefficients
        ≡ ok set
      → (secret : ℕ) × (scalars : List ℕ) × (secret < c.order)
        × (length scalars ≡ to_natural threshold - 1)
        × (point_to_hex c (times c.group secret c.base) ≡ ok set.public_key)
        × ((i : ℕ)
            → i < to_natural trustee_count
            → (share : ThresholdKeyShare) × (get_elem? set.shares i ≡ some share)
              × IsShareOf secret scalars (1 + i) share)
  unfolding create_threshold_election_key_shares
  create_threshold_election_key_shares-evaluate fresh_key fresh private_key threshold trustee_count
        coefficients set h =
      let (_, h1) = >>-eq-ok (is_integer threshold) _ _ h in
      let (_, h2) = >>-eq-ok (is_integer trustee_count) _ _ h1 in
      let (_, h3) = >>-eq-ok (at_least 2 threshold) _ _ h2 in
      let (_, h4) = >>-eq-ok (at_least _ trustee_count) _ _ h3 in
      let (secret, picked, h5) = >>=-eq-ok (pick_secret v c fresh_key private_key) _ h4 in
      let (checked, h6) =
        then-eq-ok (check_coefficients v c (to_natural threshold) coefficients) _ h5 in
      let (scalars, chosen, h7) =
        >>=-eq-ok (pick_coefficients v c fresh (to_natural threshold) coefficients) _ h6 in
      let (shares, made, h8) =
        >>=-eq-ok (map_result (key_share v c secret scalars) (range 1 (to_natural trustee_count))) _
          h7 in
      let (point, point_made, h9) = >>=-eq-ok (c.multiply c.base secret) _ h8 in
      let (public, public_made, h10) = >>=-eq-ok (point_to_hex c point) _ h9 in
      let (_, _, h11) = >>=-eq-ok (hash_election_public_key v public) _ h10 in
      let below = pick_secret_below fresh_key private_key picked in
      let e = ok_inj h11 in
      (
        secret,
        scalars,
        below,
        length-pick_coefficients fresh (to_natural threshold) coefficients checked chosen,
        ap (point_to_hex c) (sym (curve.multiply_is c.base point secret point_made))
            ∙ public_made
            ∙ ap (λ x. ok x.public_key) e,
        λ i inside.
            let (share, there, is_made) =
              map_result_at (key_share v c secret scalars) _ shares i made
                (get_elem?-range 1 (to_natural trustee_count) i inside) in
            (
              share,
              subst (λ l. get_elem? l i ≡ some share) (ap (λ x. x.shares) e) there,
              key_share-IsShareOf secret scalars (1 + i) share below is_made,
            ),
      )
