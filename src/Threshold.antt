-- ===== src/Threshold.antt =====
-- The threshold keys of packages/crypto/src/index.ts: `createThresholdElectionKeyShares`, and the
-- arithmetic modulo the order, which packages/crypto/src/proofCompatibleThreshold.ts has too.
pub mod Shares
pub mod Polynomial
pub mod Inverse
pub mod Combined
use scalable_blockchain_voti.Prelude.{
  ℕ, zero, suc, ◌+◌, ◌-◌, ◌*◌, ◌/◌, ◌%◌, Bool, not, Option, none, some, List, [], ◌∷◌, ◌++◌, length,
  leb, ltb, ◌==◌, if◌then◌else◌,
}
use scalable_blockchain_voti.Outcome.{
  Label, plain, at, Error, assertion, diverged, Result, ok, err, guard, map_result, ◌>>=◌, ◌>>◌,
}
use scalable_blockchain_voti.Js.Texts.{Text, text}
use scalable_blockchain_voti.Js.Numbers.{Number, is_integer, at_least, to_natural}
use scalable_blockchain_voti.Js.Digits.{show_radix, pad_start}
use scalable_blockchain_voti.Js.Integers.{ℤ, pos, negsuc, ◌-ℤ◌, ◌*ℤ◌, mod_order}
use scalable_blockchain_voti.Viem.{Viem}
use scalable_blockchain_voti.Tally.{hash_election_public_key}
use scalable_blockchain_voti.Tally.Shares.{scalar_from_private_key, scalar_from_hex}
use scalable_blockchain_voti.Curve.{Curve, point_to_hex}
use scalable_blockchain_voti.Elgamal.{range}

pub record ThresholdKeyShare : Type 0 where
  pub trustee_index : ℕ
  pub private_share : Text
  pub public_share : Text

pub record ThresholdElectionKeySet : Type 0 where
  pub threshold : ℕ
  pub trustee_count : ℕ
  pub public_key : Text
  pub public_key_hash : Text
  pub shares : List ThresholdKeyShare

-- the `while` loop of `modInverse`; the fuel is one round for each unit of `low`
unfoldable pub inverse_loop :
    (fuel low high : ℕ) → (low_coefficient high_coefficient : ℤ) → Result ℤ
inverse_loop zero low high lm hm = if ltb 1 low then err diverged else ok lm
inverse_loop (suc fuel) low high lm hm =
    let ratio = high / low in
    let rest = inverse_loop fuel (high - low * ratio) low (hm -ℤ lm *ℤ pos ratio) lm in
    if ltb 1 low then rest else ok lm

unfoldable pub mod_inverse : (order : ℕ) → ℕ → Result ℕ
mod_inverse order value = do
  let low = mod_order order (pos value)
  coefficient ← inverse_loop low low order (pos 1) (pos 0)
  ok (mod_order order coefficient)

-- the loop over the other indexes: numerator and denominator
unfoldable pub lagrange_loop : (order x : ℕ) → List ℕ → (numerator denominator : ℕ) → ℕ × ℕ
lagrange_loop order x [] numerator denominator = (numerator, denominator)
lagrange_loop order x (other ∷ others) numerator denominator =
    let same = lagrange_loop order x others numerator denominator in
    let next =
      lagrange_loop order x others (mod_order order (pos numerator *ℤ (pos 0 -ℤ pos other)))
        (mod_order order (pos denominator *ℤ (pos x -ℤ pos other))) in
    if other == x then same else next

unfoldable pub lagrange_coefficient_at_zero : (order x : ℕ) → List ℕ → Result ℕ
lagrange_coefficient_at_zero order x all = do
  let both = lagrange_loop order x all 1 1
  inverse ← mod_inverse order both.1
  ok (mod_order order (pos (both.0 * inverse)))

-- the loop over the coefficients
unfoldable pub share_loop : (order x : ℕ) → List ℕ → (y power : ℕ) → ℕ
share_loop order x [] y power = y
share_loop order x (coefficient ∷ coefficients) y power =
    share_loop order x coefficients (mod_order order (pos (y + coefficient * power)))
      (mod_order order (pos (power * x)))

unfoldable pub scalar_to_hex : (order : ℕ) → ℕ → Result Text
scalar_to_hex order value = do
  let scalar = mod_order order (pos value)
  guard (not (scalar == 0)) (assertion "scalar cannot be zero")
  ok (text "0x" ++ pad_start 64 (show_radix 16 scalar))

-- params.coefficients.map((coefficient, index) => scalarFromHex(...))
unfoldable pub given_coefficients : Viem → (order : ℕ) → ℕ → List Text → Result (List ℕ)
given_coefficients v order index [] = ok []
given_coefficients v order index (coefficient ∷ coefficients) = do
  scalar ← scalar_from_hex v order coefficient (at "coefficients" index)
  rest ← given_coefficients v order (index + 1) coefficients
  ok (scalar ∷ rest)

module _ {Point : Type 0} (v : Viem) (c : Curve Point) where
  unfoldable pub pick_secret : Text → Option Text → Result ℕ
  pick_secret fresh none = scalar_from_private_key v c.order fresh (plain "privateKey")
  pick_secret fresh (some key) = scalar_from_hex v c.order key (plain "privateKey")

  abbrev pub check_coefficients : ℕ → Option (List Text) → Result (Unit {0})
  check_coefficients threshold none = ok tt
  check_coefficients threshold (some coefficients) =
      guard (length coefficients == threshold - 1)
        (assertion "coefficients must include threshold - 1 scalar values")

  unfoldable pub pick_coefficients : (ℕ → Text) → ℕ → Option (List Text) → Result (List ℕ)
  pick_coefficients fresh threshold none =
      map_result (λ i. scalar_from_private_key v c.order (fresh i) (plain "coefficient"))
        (range 0 (threshold - 1))
  pick_coefficients fresh threshold (some coefficients) =
      given_coefficients v c.order 0 coefficients

  -- one round of the loop over the trustees
  unfoldable pub key_share : ℕ → List ℕ → ℕ → Result ThresholdKeyShare
  key_share secret coefficients trustee_index = do
    let y = share_loop c.order trustee_index coefficients secret trustee_index
    private_share ← scalar_to_hex c.order y
    point ← c.multiply c.base y
    public_share ← point_to_hex c point
    ok (record {
      trustee_index = trustee_index;
      private_share = private_share;
      public_share = public_share;
    })

  unfoldable pub create_threshold_election_key_shares :
      (fresh_key : Text) (fresh : ℕ → Text) (private_key : Option Text)
      → (threshold trustee_count : Number) → Option (List Text)
      → Result ThresholdElectionKeySet
  create_threshold_election_key_shares fresh_key fresh private_key threshold trustee_count
        coefficients =
      do
        guard (is_integer threshold) (assertion "threshold must be an integer")
        guard (is_integer trustee_count) (assertion "trusteeCount must be an integer")
        guard (at_least 2 threshold) (assertion "threshold must be at least two")
        guard (at_least (to_natural threshold) trustee_count)
            (assertion "trusteeCount must be at least threshold")
        secret ← pick_secret fresh_key private_key
        check_coefficients (to_natural threshold) coefficients
        scalars ← pick_coefficients fresh (to_natural threshold) coefficients
        shares ← map_result (key_share secret scalars) (range 1 (to_natural trustee_count))
        point ← c.multiply c.base secret
        public_key ← point_to_hex c point
        hash ← hash_election_public_key v public_key
        ok (record {
          threshold = to_natural threshold;
          trustee_count = to_natural trustee_count;
          public_key = public_key;
          public_key_hash = hash;
          shares = shares;
        })
