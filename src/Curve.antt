-- ===== src/Curve.antt =====
-- Elliptic curves as the program uses them: `ProjectivePoint` of `@noble/curves` for secp256k1, whose
-- code is not part of the repository. `Curve.Laws` states what its documentation promises.
pub mod Multiples
pub mod Laws
use scalable_blockchain_voti.Prelude.{ℕ, Bool, ◌++◌, drop}
use scalable_blockchain_voti.Outcome.{Label, Result, ok, ◌>>=◌, ◌>>◌}
use scalable_blockchain_voti.Js.Texts.{Text, text}
use scalable_blockchain_voti.Viem.{Viem}
use scalable_blockchain_voti.Package.Points.{assert_compressed_point}

-- A commutative group of points.
pub record Group (Point : Type 0) : Type 0 where
  pub identity : Point
  pub add : Point → Point → Point
  pub negate : Point → Point

-- `to_hex` and `from_hex` are `toRawBytes(true)` and `fromHex`, on hex digits without a prefix;
-- `multiply` throws unless the scalar is between 0 and the order.
pub record Curve (Point : Type 0) : Type 0 where
  pub group : Group Point
  pub order : ℕ
  pub base : Point
  pub multiply : Point → ℕ → Result Point
  pub equals : Point → Point → Bool
  pub to_hex : Point → Result Text
  pub from_hex : Text → Result Point
  pub get_public_key : (private_key : Text) → Result Text

module _ {Point : Type 0} (c : Curve Point) where
  abbrev pub subtract : Point → Point → Point
  subtract p q = c.group.add p (c.group.negate q)

  unfoldable pub point_to_hex : Point → Result Text
  point_to_hex point = do digits ← c.to_hex point; ok (text "0x" ++ digits)

  unfoldable pub point_from_hex : Viem → Text → Label → Result Point
  point_from_hex v value label = do assert_compressed_point v value label; c.from_hex (drop 2 value)
