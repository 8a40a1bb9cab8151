-- ===== src/Package/Points.antt =====
-- `exactKeys` and `assertCompressedPointHex` of packages/crypto/src/index.ts.
use scalable_blockchain_voti.Prelude.{
  ℕ, ◌+◌, String, Bool, true, false, ◌&&◌, ◌||◌, List, [], ◌∷◌, length, take, drop, ◌==◌,
}
use scalable_blockchain_voti.Outcome.{Label, at, Result, ok, guard, labelled, ◌>>◌}
use scalable_blockchain_voti.Js.Texts.{Text, text, lower, text_eq}
use scalable_blockchain_voti.Js.Sorting.{sort_texts}
use scalable_blockchain_voti.Viem.{Viem, assert_hex_bytes}

-- deepEqual of two arrays of strings
unfoldable pub texts_eq : List Text → List Text → Bool
texts_eq [] [] = true
texts_eq [] (t ∷ ts) = false
texts_eq (s ∷ ss) [] = false
texts_eq (s ∷ ss) (t ∷ ts) = text_eq s t && texts_eq ss ts

unfoldable pub exact_keys : List Text → List Text → Label → Result (Unit {0})
exact_keys actual expected label =
    guard (texts_eq (sort_texts actual) (sort_texts expected))
      (labelled label "must contain exactly")

-- value.slice(2, 4).toLowerCase() is "02" or "03"
unfoldable pub has_point_prefix : Text → Bool
has_point_prefix value =
    let prefix = lower (take 2 (drop 2 value)) in
    text_eq prefix (text "02") || text_eq prefix (text "03")

module _ (v : Viem) where
  unfoldable pub assert_compressed_point : Text → Label → Result (Unit {0})
  assert_compressed_point value label = do
    assert_hex_bytes v value label
    guard (length value == 68) (labelled label "must be a compressed secp256k1 point")
    guard (has_point_prefix value) (labelled label "must use compressed point prefix 02 or 03")

  -- for (const [index, point] of points.entries()) assertCompressedPointHex(...)
  unfoldable pub assert_points : String → ℕ → List Text → Result (Unit {0})
  assert_points name index [] = ok tt
  assert_points name index (point ∷ points) = do
    assert_compressed_point point (at name index)
    assert_points name (index + 1) points
