-- ===== src/Jub/Dealt.antt =====
-- The key sets of packages/crypto/src/proofCompatibleThreshold.ts are the values of a polynomial.
use scalable_blockchain_voti.Prelude.{
  ℕ, suc, ◌+◌, ◌-◌, ◌*◌, ◌%◌, ◌<◌, ◌≡◌, ◌&&◌, refl, sym, ap, ◌∙◌, subst, some, none, Option, List,
  [], ◌∷◌, map, length, get_elem?, arith, ltb, ltb→lt, ◌==◌, and_right,
}
use scalable_blockchain_voti.Outcome.{
  Label, plain, ok, guard-eq-ok, map_result, >>=-eq-ok, >>-eq-ok, then-eq-ok, ok_inj,
}
use scalable_blockchain_voti.Outcome.Mapping.{map_result_at}
use scalable_blockchain_voti.Js.Numbers.{Number, is_integer, at_least, to_natural}
use scalable_blockchain_voti.Js.Digits.{show_radix}
use scalable_blockchain_voti.Viem.{Viem}
use scalable_blockchain_voti.Elgamal.{range}
use scalable_blockchain_voti.Elgamal.Pairs.{length-range, get_elem?-range}
use scalable_blockchain_voti.Threshold.{share_loop}
use scalable_blockchain_voti.Threshold.Polynomial.{evaluate, share_loop-evaluate}
use scalable_blockchain_voti.Jub.{
  BabyJub, babyjub_subgroup_order, point_to_naturals, from_field_point,
  hash_proof_compatible_election_public_key,
}
use scalable_blockchain_voti.Jub.Keys.{
  JubKeyShare, JubKeySet, assert_scalar, random_scalar, given_or, assert_scalars,
  check_coefficient_count, subgroup_coefficients, jub_key_share,
  create_proof_compatible_threshold_key_set,
}

assert_scalar-kept :
    (value : ℕ) (label : Label) {n : ℕ}
    → assert_scalar value label ≡ ok n
    → (value ≡ n) × (value < babyjub_subgroup_order)
unfolding assert_scalar
assert_scalar-kept value label h =
    let (inside, h1) = >>-eq-ok _ _ _ h in
    (ok_inj h1, ltb→lt value babyjub_subgroup_order (and_right (ltb 0 value) _ inside))

length-assert_scalars :
    (index : ℕ) (given : List ℕ) {scalars : List ℕ}
    → assert_scalars index given ≡ ok scalars
    → length scalars ≡ length given
unfolding assert_scalars
length-assert_scalars index [] h = ap length (sym (ok_inj h))
length-assert_scalars index (a ∷ given) h =
    let (_, _, h1) = >>=-eq-ok (assert_scalar a _) _ h in
    let (rest, made, h2) = >>=-eq-ok (assert_scalars (index + 1) given) _ h1 in
    ap length (sym (ok_inj h2)) ∙ ap suc (length-assert_scalars (index + 1) given made)

length-random :
    (fresh : ℕ → ℕ) (l : List ℕ) → length (map (λ i. random_scalar (fresh i)) l) ≡ length l
length-random fresh [] = refl
length-random fresh (i ∷ l) = ap suc (length-random fresh l)

length-subgroup_coefficients :
    (fresh : ℕ → ℕ) (threshold : ℕ) (given : Option (List ℕ)) {scalars : List ℕ}
    → check_coefficient_count threshold given ≡ ok tt
    → subgroup_coefficients fresh threshold given ≡ ok scalars
    → length scalars ≡ threshold - 1
unfolding subgroup_coefficients
length-subgroup_coefficients fresh threshold none checked h =
    ap length (sym (ok_inj h))
    ∙ length-random fresh (range 0 (threshold - 1))
    ∙ length-range 0 (threshold - 1)
length-subgroup_coefficients fresh threshold (some given) checked h =
    let fits = guard-eq-ok (length given == threshold - 1) _ checked in
    length-assert_scalars 0 given h ∙ ground (arith, fits)

module _ {F : Type 0} (v : Viem) (jub : BabyJub F) where
  -- A share is the value of the polynomial at its index, with the point of that value.
  pub record IsJubShareOf (secret : ℕ) (scalars : List ℕ) (index : ℕ) (share : JubKeyShare)
      : Type 0 where
    pub index_kept : share.trustee_index ≡ index
    pub private_is :
        share.private_share
        ≡ show_radix 10 (evaluate index (secret ∷ scalars) % babyjub_subgroup_order)
    pub public_is :
        share.public_share
        ≡ from_field_point jub (
            jub.mul_point_escalar jub.base8
              (evaluate index (secret ∷ scalars) % babyjub_subgroup_order))

  jub_key_share-IsJubShareOf :
      (secret : ℕ) (scalars : List ℕ) (index : ℕ) (share : JubKeyShare)
      → secret < babyjub_subgroup_order
      → jub_key_share v jub secret scalars index ≡ ok share
      → IsJubShareOf secret scalars index share
  unfolding jub_key_share evaluate
  jub_key_share-IsJubShareOf secret scalars index share below h =
      let y = share_loop babyjub_subgroup_order index scalars secret index in
      let value : y ≡ (secret + index * evaluate index scalars) % babyjub_subgroup_order =
        share_loop-evaluate babyjub_subgroup_order index scalars secret index below in
      let (scalar, checked, h1) = >>=-eq-ok (assert_scalar y _) _ h in
      let n-is = sym (assert_scalar-kept y _ checked).0 ∙ value in
      subst (IsJubShareOf secret scalars index) (ok_inj h1) (record {
        index_kept = refl;
        private_is = ap (show_radix 10) n-is;
        public_is = ap (λ n. from_field_point jub (jub.mul_point_escalar jub.base8 n)) n-is;
      })

  -- When `createProofCompatibleThresholdKeySet` returns, there is a polynomial of threshold
  -- coefficients, the first below the order of the subgroup, such that the public key is the point
  -- of the first coefficient and the share of each trustee, from 1 to the number of trustees, is the
  -- polynomial's value at the trustee's index modulo the order, with the point of that value.
  pub create_proof_compatible_threshold_key_set-evaluate :
      (fresh_key : ℕ) (fresh : ℕ → ℕ) (threshold trustee_count : Number) (private_key : Option ℕ)
      (coefficients : Option (List ℕ)) (set : JubKeySet)
      → create_proof_compatible_threshold_key_set v jub fresh_key fresh threshold trustee_count
          private_key coefficients
        ≡ ok set
      → (secret : ℕ) × (scalars : List ℕ) × (secret < babyjub_subgroup_order)
        × (length scalars ≡ to_natural threshold - 1)
        × (set.public_key ≡ from_field_point jub (jub.mul_point_escalar jub.base8 secret))
        × ((i : ℕ)
            → i < to_natural trustee_count
            → (share : JubKeyShare) × (get_elem? set.shares i ≡ some share)
              × IsJubShareOf secret scalars (1 + i) share)
  unfolding create_proof_compatible_threshold_key_set
  create_proof_compatible_threshold_key_set-evaluate fresh_key fresh threshold trustee_count
        private_key coefficients set h =
      let (_, h1) = >>-eq-ok (is_integer threshold && at_least 2 threshold) _ _ h in
      let (_, h2) = >>-eq-ok (is_integer trustee_count && at_least _ trustee_count) _ _ h1 in
      let (secret, picked, h3) =
        >>=-eq-ok (assert_scalar (given_or private_key fresh_key) (plain "privateKey")) _ h2 in
      let (checked, h4) =
        then-eq-ok (check_coefficient_count (to_natural threshold) coefficients) _ h3 in
      let (scalars, chosen, h5) =
        >>=-eq-ok (subgroup_coefficients fresh (to_natural threshold) coefficients) _ h4 in
      let public_key = from_field_point jub (jub.mul_point_escalar jub.base8 secret) in
      let (shares, made, h6) =
        >>=-eq-ok
          (map_result (jub_key_share v jub secret scalars) (range 1 (to_natural trustee_count))) _
          h5 in
      let (_, _, h7) =
        >>=-eq-ok (hash_proof_compatible_election_public_key v (point_to_naturals public_key)) _
          h6 in
      let (kept, small) = assert_scalar-kept (given_or private_key fresh_key) _ picked in
      let below = subst (λ n. n < babyjub_subgroup_order) kept small in
      let e = ok_inj h7 in
      (
        secret,
        scalars,
        below,
        length-subgroup_coefficients fresh (to_natural threshold) coefficients checked chosen,
        ap (λ x. x.public_key) (sym e),
        λ i inside.
            let (share, there, is_made) =
              map_result_at (jub_key_share v jub secret scalars) _ shares i made
                (get_elem?-range 1 (to_natural trustee_count) i inside) in
            (
              share,
              subst (λ l. get_elem? l i ≡ some share) (ap (λ x. x.shares) e) there,
              jub_key_share-IsJubShareOf secret scalars (1 + i) share below is_made,
            ),
      )
