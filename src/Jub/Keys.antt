-- ===== src/Jub/Keys.antt =====
-- The key sets of packages/crypto/src/proofCompatibleThreshold.ts:
-- `createProofCompatibleThresholdKeySet`, `modInverse` and `lagrangeCoefficientAtZero`.
use scalable_blockchain_voti.Prelude.{
  ℕ, zero, suc, ◌+◌, ◌-◌, ◌*◌, ◌/◌, ◌%◌, ◌&&◌, Option, none, some, List, [], ◌∷◌, map, length, ltb,
  ◌==◌, if◌then◌else◌,
}
use scalable_blockchain_voti.Outcome.{
  Label, plain, at, unlabelled, assertion, labelled, diverged, Result, ok, err, guard, map_result,
  ◌>>=◌, ◌>>◌,
}
use scalable_blockchain_voti.Js.Texts.{Text}
use scalable_blockchain_voti.Js.Numbers.{Number, is_integer, at_least, to_natural}
use scalable_blockchain_voti.Js.Digits.{show_radix}
use scalable_blockchain_voti.Js.Integers.{ℤ, pos, ◌-ℤ◌, ◌*ℤ◌, mod_order}
use scalable_blockchain_voti.Viem.{Viem}
use scalable_blockchain_voti.Elgamal.{range}
use scalable_blockchain_voti.Threshold.{share_loop}
use scalable_blockchain_voti.Jub.{
  BabyJub, DecimalPoint, babyjub_subgroup_order, point_to_naturals, from_field_point,
  hash_proof_compatible_election_public_key,
}

pub record JubKeyShare : Type 0 where
  pub trustee_index : ℕ
  pub private_share : Text
  pub public_share : DecimalPoint

pub record JubKeySet : Type 0 where
  pub threshold : ℕ
  pub trustee_count : ℕ
  pub public_key : DecimalPoint
  pub public_key_hash : Text
  pub shares : List JubKeyShare

-- the `while` loop of `modInverse`: the last `low` beside its coefficient
unfoldable pub subgroup_loop :
    (fuel low high : ℕ) → (low_coefficient high_coefficient : ℤ) → Result (ℕ × ℤ)
subgroup_loop zero low high lm hm = if ltb 1 low then err diverged else ok (low, lm)
subgroup_loop (suc fuel) low high lm hm =
    let ratio = high / low in
    let rest = subgroup_loop fuel (high - low * ratio) low (hm -ℤ lm *ℤ pos ratio) lm in
    if ltb 1 low then rest else ok (low, lm)

unfoldable pub subgroup_inverse : ℕ → Result ℕ
subgroup_inverse value = do
  let low = mod_order babyjub_subgroup_order (pos value)
  last ← subgroup_loop low low babyjub_subgroup_order (pos 1) (pos 0)
  guard (last.0 == 1) (assertion "value has no subgroup inverse")
  ok (mod_order babyjub_subgroup_order last.1)

-- the loop over the other indexes: numerator and denominator
unfoldable pub subgroup_lagrange_loop : (index : ℕ) → List ℕ → (numerator denominator : ℕ) → ℕ × ℕ
subgroup_lagrange_loop index [] numerator denominator = (numerator, denominator)
subgroup_lagrange_loop index (other ∷ others) numerator denominator =
    let same = subgroup_lagrange_loop index others numerator denominator in
    let next =
      subgroup_lagrange_loop index others
        (mod_order babyjub_subgroup_order (pos numerator *ℤ (pos 0 -ℤ pos other)))
        (mod_order babyjub_subgroup_order (pos denominator *ℤ (pos index -ℤ pos other))) in
    if other == index then same else next

unfoldable pub subgroup_lagrange : ℕ → List ℕ → Result ℕ
subgroup_lagrange index indexes = do
  let both = subgroup_lagrange_loop index indexes 1 1
  inverse ← subgroup_inverse both.1
  ok (mod_order babyjub_subgroup_order (pos (both.0 * inverse)))

unfoldable pub assert_scalar : ℕ → Label → Result ℕ
assert_scalar value label = do
  guard (ltb 0 value && ltb value babyjub_subgroup_order) (labelled label "is invalid")
  ok value

-- of the number that 32 random bytes are
abbrev pub random_scalar : ℕ → ℕ
random_scalar bytes = bytes % (babyjub_subgroup_order - 1) + 1

abbrev pub given_or : Option ℕ → ℕ → ℕ
given_or none bytes = random_scalar bytes
given_or (some value) bytes = value

-- params.coefficients.map((coefficient, index) => assertScalar(...))
unfoldable pub assert_scalars : ℕ → List ℕ → Result (List ℕ)
assert_scalars index [] = ok []
assert_scalars index (coefficient ∷ coefficients) = do
  scalar ← assert_scalar coefficient (at "coefficients" index)
  rest ← assert_scalars (index + 1) coefficients
  ok (scalar ∷ rest)

abbrev pub check_coefficient_count : ℕ → Option (List ℕ) → Result (Unit {0})
check_coefficient_count threshold none = ok tt
check_coefficient_count threshold (some coefficients) =
    guard (length coefficients == threshold - 1) unlabelled

unfoldable pub subgroup_coefficients : (ℕ → ℕ) → ℕ → Option (List ℕ) → Result (List ℕ)
subgroup_coefficients fresh threshold none =
    ok (map (λ i. random_scalar (fresh i)) (range 0 (threshold - 1)))
subgroup_coefficients fresh threshold (some coefficients) = assert_scalars 0 coefficients

module _ {F : Type 0} (v : Viem) (jub : BabyJub F) where
  -- one round of the loop over the trustees
  unfoldable pub jub_key_share : ℕ → List ℕ → ℕ → Result JubKeyShare
  jub_key_share secret coefficients trustee_index = do
    let private = share_loop babyjub_subgroup_order trustee_index coefficients secret trustee_index
    scalar ← assert_scalar private (at "share" trustee_index)
    ok (record {
      trustee_index = trustee_index;
      private_share = show_radix 10 scalar;
      public_share = from_field_point jub (jub.mul_point_escalar jub.base8 scalar);
    })

  unfoldable pub create_proof_compatible_threshold_key_set :
      (fresh_key : ℕ) (fresh : ℕ → ℕ) (threshold trustee_count : Number) (private_key : Option ℕ)
      → Option (List ℕ)
      → Result JubKeySet
  create_proof_compatible_threshold_key_set fresh_key fresh threshold trustee_count private_key
        coefficients =
      do
        guard (is_integer threshold && at_least 2 threshold) unlabelled
        guard (is_integer trustee_count && at_least (to_natural threshold) trustee_count) unlabelled
        secret ← assert_scalar (given_or private_key fresh_key) (plain "privateKey")
        check_coefficient_count (to_natural threshold) coefficients
        scalars ← subgroup_coefficients fresh (to_natural threshold) coefficients
        let public_key = from_field_point jub (jub.mul_point_escalar jub.base8 secret)
        shares ← map_result (jub_key_share secret scalars) (range 1 (to_natural trustee_count))
        hash ← hash_proof_compatible_election_public_key v (point_to_naturals public_key)
        ok (record {
          threshold = to_natural threshold;
          trustee_count = to_natural trustee_count;
          public_key = public_key;
          public_key_hash = hash;
          shares = shares;
        })
