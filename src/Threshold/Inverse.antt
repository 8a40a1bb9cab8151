-- ===== src/Threshold/Inverse.antt =====
-- `modInverse` and `lagrangeCoefficientAtZero` return, and what they return is reduced.
use native.Mathlib.Nat.{mod-lt, mod_def}
use scalable_blockchain_voti.Prelude.{
  ℕ, zero, suc, ◌-◌, ◌*◌, ◌/◌, ◌<◌, ◌≤◌, ◌≡◌, refl, subst, false, List, arith, ltb, ltb→lt,
  Bool-cases, inl, inr,
}
use scalable_blockchain_voti.Outcome.{ok}
use scalable_blockchain_voti.Js.Integers.{ℤ, pos, negsuc, ◌-ℤ◌, ◌*ℤ◌, mod_order}
use scalable_blockchain_voti.Threshold.{
  inverse_loop, mod_inverse, lagrange_loop, lagrange_coefficient_at_zero,
}

next_below : (low high fuel : ℕ) → 1 < low → low ≤ suc fuel → high - low * (high / low) ≤ fuel
next_below low high fuel one enough =
    let less : high - low * (high / low) < low =
      subst (λ n. n < low) (mod_def high low) (mod-lt high (omega (arith, one))) in
    omega (arith, less, enough)

inverse_loop_total :
    (fuel low high : ℕ) (lm hm : ℤ)
    → low ≤ fuel
    → (r : ℤ) × (inverse_loop fuel low high lm hm ≡ ok r)
unfolding inverse_loop
inverse_loop_total zero low high lm hm enough =
    let stop : ltb 1 low ≡ false = ground (arith, enough) in (lm, rw stop refl)
inverse_loop_total (suc fuel) low high lm hm enough = elim (Bool-cases (ltb 1 low)) [
  | inr stop ↦ (lm, rw stop refl)
  | inl more ↦
      let ratio = high / low in
      let (r, e) =
        inverse_loop_total fuel (high - low * ratio) low (hm -ℤ lm *ℤ pos ratio) lm
          (next_below low high fuel (ltb→lt 1 low more) enough) in
      (r, rw more e)
]

mod_order_below : (order : ℕ) (n : ℤ) → 0 < order → mod_order order n < order
unfolding mod_order
mod_order_below order (pos n) h = mod-lt n h
mod_order_below order (negsuc n) h = let small = mod-lt (suc n) h in ground (arith, small, h)

pub mod_inverse_total :
    (order value : ℕ) → 0 < order → (r : ℕ) × (mod_inverse order value ≡ ok r) × (r < order)
unfolding mod_inverse
mod_inverse_total order value h =
    let low = mod_order order (pos value) in
    let (r, e) = inverse_loop_total low low order (pos 1) (pos 0) (omega arith) in
    (mod_order order r, rw e refl, mod_order_below order r h)

-- For a positive order, `lagrangeCoefficientAtZero` returns, whatever the indexes, and what it
-- returns is below the order: the loop of `modInverse` ends, since its `low` falls in each round.
pub lagrange_coefficient_at_zero_total :
    (order x : ℕ) (all : List ℕ)
    → 0 < order
    → (r : ℕ) × (lagrange_coefficient_at_zero order x all ≡ ok r) × (r < order)
unfolding lagrange_coefficient_at_zero
lagrange_coefficient_at_zero_total order x all h =
    let (inverse, e, _) = mod_inverse_total order (lagrange_loop order x all 1 1).1 h in
    (_, rw e refl, mod_order_below order (pos ((lagrange_loop order x all 1 1).0 * inverse)) h)
