-- ===== src/Js/Doubles.antt =====
-- JavaScript's sum of two natural `number`s: a double has 53 bits, and what does not fit is rounded
-- to the nearest double, to the even one of two. The sum is below 2 ^ 1024.
use native.Mathlib.Nat.{le-div_iff_mul-le, div-one, mod-one, mul-le-mul_right}
use scalable_blockchain_voti.Prelude.{
  ℕ, zero, suc, ◌+◌, ◌*◌, ◌/◌, ◌%◌, ◌^◌, ◌<◌, ◌≤◌, ◌≡◌, true, ◌&&◌, ◌||◌, ltb, ◌==◌, if◌then◌else◌,
  Bool-cases, inl, inr, arith, ltb→lt,
}

abbrev pub double_bound : ℕ
double_bound = 2 ^ 53

-- of the multiples of `ulp` next to n, the nearer one
unfoldable pub nearest : (ulp n : ℕ) → ℕ
nearest ulp n =
    let q = n / ulp in
    let twice = n % ulp * 2 in
    if ltb ulp twice || (twice == ulp && q % 2 == 1) then (q + 1) * ulp else q * ulp

-- the distance of the doubles next to n is the least power of two with n below 2 ^ 53 times it
unfoldable pub rounded : (fuel ulp n : ℕ) → ℕ
rounded zero ulp n = nearest ulp n
rounded (suc fuel) ulp n =
    let rest = rounded fuel (ulp * 2) n in
    if ltb n (double_bound * ulp) then nearest ulp n else rest

-- the largest distance is 2 ^ 971
unfoldable pub add_doubles : ℕ → ℕ → ℕ
add_doubles m n = rounded 971 1 (m + n)

nearest-one : (n : ℕ) → nearest 1 n ≡ n
unfolding nearest
nearest-one n = rw (mod-one n, div-one n) (ground arith)

nearest-floor : (ulp n : ℕ) → n / ulp * ulp ≤ nearest ulp n
unfolding nearest
nearest-floor ulp n =
    elim (Bool-cases (ltb ulp (n % ulp * 2) || (n % ulp * 2 == ulp && n / ulp % 2 == 1))) [
      | inl up ↦ let more : n / ulp ≤ n / ulp + 1 = omega arith in rw up (mul-le-mul_right ulp more)
      | inr down ↦ rw down (omega arith)
    ]

-- From 2 ^ 53 on, what comes of it is no less than 2 ^ 53.
rounded_large :
    (fuel ulp n : ℕ) → 0 < ulp → double_bound ≤ n / ulp * ulp → double_bound ≤ rounded fuel ulp n
unfolding rounded
rounded_large zero ulp n some_ulp large =
    let floor = nearest-floor ulp n in omega (arith, large, floor)
rounded_large (suc fuel) ulp n some_ulp large = elim (Bool-cases (ltb n (double_bound * ulp))) [
  | inl fits ↦ rw fits (let floor = nearest-floor ulp n in omega (arith, large, floor))
  | inr beyond ↦ rw beyond (
      let positive : 0 < ulp * 2 = omega (arith, some_ulp) in
      let enough : 2 ^ 52 * (ulp * 2) ≤ n = ground (arith, beyond) in
      let quotient = (le-div_iff_mul-le positive).1 enough in
      let product = mul-le-mul_right (ulp * 2) quotient in
      rounded_large fuel (ulp * 2) n positive (omega (arith, product, some_ulp)))
]

-- A sum below 2 ^ 53 is exact, and a sum that comes out below it was below it.
pub add_doubles-exact : (m n : ℕ) → m + n < double_bound → add_doubles m n ≡ m + n
unfolding add_doubles rounded
add_doubles-exact m n small =
    let fits : ltb (m + n) (double_bound * 1) ≡ true = ground (arith, small) in
    rw fits (nearest-one (m + n))

pub add_doubles-small : (m n : ℕ) → add_doubles m n < double_bound → m + n < double_bound
unfolding add_doubles
add_doubles-small m n small = elim (Bool-cases (ltb (m + n) double_bound)) [
  | inl fits ↦ ltb→lt (m + n) double_bound fits
  | inr beyond ↦ absurd (
      let enough : double_bound ≤ (m + n) / 1 * 1 = rw (div-one (m + n)) (ground (arith, beyond)) in
      let large = rounded_large 971 1 (m + n) (omega arith) enough in omega (arith, large, small))
]
