-- ===== src/Js/Numbers.antt =====
-- A JavaScript `number`, as far as the guards `Number.isInteger`, `>= 0` and `<` tell values apart.
use scalable_blockchain_voti.Prelude.{ℕ, ◌≤◌, ◌≡◌, Bool, true, false, leb, leb→le}

-- `negative n` is -(n + 1); `fraction` is any other value, `NaN` and the infinities among them.
pub data Number : Type 0 where
  natural : ℕ → Number
  negative : ℕ → Number
  fraction : Number

-- Number.isInteger
unfoldable pub is_integer : Number → Bool
is_integer (natural n) = true
is_integer (negative n) = true
is_integer fraction = false

-- `>= bound` for an integer; the source asks it only after `isInteger`.
unfoldable pub at_least : ℕ → Number → Bool
at_least bound (natural n) = leb bound n
at_least bound (negative n) = false
at_least bound fraction = false

unfoldable pub to_natural : Number → ℕ
to_natural (natural n) = n
to_natural (negative n) = 0
to_natural fraction = 0

pub at_least-le : (bound : ℕ) (n : Number) → at_least bound n ≡ true → bound ≤ to_natural n
unfolding at_least to_natural
at_least-le bound (natural n) h = leb→le bound n h
at_least-le bound (negative n) h = cc
at_least-le bound fraction h = cc
