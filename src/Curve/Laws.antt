-- ===== src/Curve/Laws.antt =====
-- What is taken for granted of `@noble/curves`.
use scalable_blockchain_voti.Prelude.{ℕ, ◌<◌, ◌≡◌, ◌↔◌, true, false, ◌++◌}
use scalable_blockchain_voti.Outcome.{ok}
use scalable_blockchain_voti.Js.Texts.{Text, text, lower}
use scalable_blockchain_voti.Viem.{Viem}
use scalable_blockchain_voti.Package.Accepted.{is_point}
use scalable_blockchain_voti.Tally.Shares.{hex_digits}
use scalable_blockchain_voti.Curve.{Curve}
use scalable_blockchain_voti.Curve.Multiples.{IsGroup, times}

-- The points are a commutative group and the base has the order; `multiply` is repeated addition,
-- for scalars from 1 to the order; every point but the identity has compressed hex, which is read
-- back to the point; the public key is the multiple of the base, in that hex.
pub record IsCurve {Point : Type 0} (v : Viem) (c : Curve Point) : Type 0 where
  pub group_laws : IsGroup c.group
  pub multiply_total :
      (p : Point) (n : ℕ) → 0 < n → n < c.order → c.multiply p n ≡ ok (times c.group n p)
  pub multiply_is : (p q : Point) (n : ℕ) → c.multiply p n ≡ ok q → q ≡ times c.group n p
  pub base_order :
      (m n : ℕ)
      → m < c.order
      → n < c.order
      → times c.group m c.base ≡ times c.group n c.base
      → m ≡ n
  pub base_times_order : times c.group c.order c.base ≡ c.group.identity
  pub equals_iff : (p q : Point) → (c.equals p q ≡ true) ↔ (p ≡ q)
  pub to_hex_total :
      (p : Point) → c.equals p c.group.identity ≡ false → (s : Text) × (c.to_hex p ≡ ok s)
  pub from_hex-to_hex : (p : Point) (s : Text) → c.to_hex p ≡ ok s → c.from_hex s ≡ ok p
  pub to_hex_point : (p : Point) (s : Text) → c.to_hex p ≡ ok s → is_point v (text "0x" ++ s) ≡ true
  pub to_hex_lowered : (p : Point) (s : Text) → c.to_hex p ≡ ok s → lower s ≡ s
  pub public_key_is :
      (s : Text)
      → 0 < hex_digits 0 (lower s)
      → hex_digits 0 (lower s) < c.order
      → c.get_public_key s ≡ c.to_hex (times c.group (hex_digits 0 (lower s)) c.base)
