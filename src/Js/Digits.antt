-- ===== src/Js/Digits.antt =====
-- Numbers as text: `toString(radix)`, `padStart`, and `BigInt` of decimal digits.
use scalable_blockchain_voti.Prelude.{
  ℕ, zero, suc, ◌+◌, ◌*◌, ◌-◌, ◌/◌, ◌%◌, Bool, true, false, ◌&&◌, [], ◌∷◌, ◌++◌, length, ltb, leb,
  ◌==◌, if◌then◌else◌,
}
use scalable_blockchain_voti.Js.Texts.{Text}

abbrev pub digit_unit : ℕ → ℕ
digit_unit d = if ltb d 10 then 48 + d else 87 + d

-- the digits before those that are known; one round of the fuel for each digit
unfoldable pub digits_before : (radix fuel n : ℕ) → Text → Text
digits_before radix zero n known = known
digits_before radix (suc fuel) n known =
    let rest = digits_before radix fuel (n / radix) (digit_unit (n % radix) ∷ known) in
    if n == 0 then known else rest

-- n.toString(radix), for a radix from 2 to 16
unfoldable pub show_radix : (radix n : ℕ) → Text
show_radix radix n = if n == 0 then 48 ∷ [] else digits_before radix n n []

-- '0' as often as the width is missing
abbrev zeros : ℕ → Text
zeros zero = []
zeros (suc n) = 48 ∷ zeros n

-- s.padStart(width, "0")
unfoldable pub pad_start : (width : ℕ) → Text → Text
pad_start width s = zeros (width - length s) ++ s

abbrev pub all_decimal : Text → Bool
all_decimal [] = true
all_decimal (c ∷ s) = (leb 48 c && leb c 57) && all_decimal s

-- /^(0|[1-9][0-9]*)$/
unfoldable pub is_decimal : Text → Bool
is_decimal [] = false
is_decimal (c ∷ []) = leb 48 c && leb c 57
is_decimal (c ∷ d ∷ s) = (leb 49 c && leb c 57) && all_decimal (d ∷ s)

-- BigInt of decimal digits
unfoldable pub decimal : ℕ → Text → ℕ
decimal value [] = value
decimal value (c ∷ s) = decimal (value * 10 + (c - 48)) s
