-- ===== src/Js/Sorting.antt =====
-- `sort`: stable, by a comparator or, without one, by code units.
pub mod Elements
pub mod Order
pub mod Increasing
use scalable_blockchain_voti.Prelude.{
  ◌≡◌, refl, Bool, true, false, ◌||◌, not, List, [], ◌∷◌, arith, if◌then◌else◌, ◌⊎◌, inl, inr,
  Bool-cases, All, All-imp,
}
use scalable_blockchain_voti.Js.Texts.{
  Text, text_eq, text_eq_iff, text_eq_refl, text_lt, text_lt_irrefl, text_lt_trans, text_lt_total,
}
use scalable_blockchain_voti.Js.Sets.{member, IsUnique}

module _ {ℓ} {A : Type ℓ} (le : A → A → Bool) where
  pub insert : A → List A → List A
  insert x [] = x ∷ []
  insert x (y ∷ ys) = if le x y then x ∷ y ∷ ys else y ∷ insert x ys

  -- `le a b` is `compare(a, b) <= 0`.
  unfoldable pub sort_by : List A → List A
  unfolding insert
  sort_by [] = []
  sort_by (x ∷ xs) = insert x (sort_by xs)

abbrev text_le : Text → Text → Bool
text_le s t = not (text_lt t s)

-- `xs.sort()`
unfoldable pub sort_texts : List Text → List Text
sort_texts xs = sort_by text_le xs

-- Each element is before all that follow it.
abbrev pub IsAscending : List Text → Type 0
IsAscending [] = Unit
IsAscending (x ∷ xs) = All (λ y. text_lt x y ≡ true) xs × IsAscending xs
