-- ===== src/Js/Sorting/Elements.antt =====
-- Sorting keeps the elements.
use scalable_blockchain_voti.Prelude.{
  suc, ◌≡◌, refl, Bool, ◌||◌, List, [], ◌∷◌, map, arith, inl, inr, Bool-cases, All, length,
}
use scalable_blockchain_voti.Js.Texts.{Text, text_eq}
use scalable_blockchain_voti.Js.Sets.{member}
use scalable_blockchain_voti.Js.Sorting.{insert, sort_by}

module _ {ℓ} {A : Type ℓ} (le : A → A → Bool) (f : A → Text) where
  member-map-insert :
      (a : Text) (x : A) (xs : List A)
      → member a (map f (insert le x xs)) ≡ (text_eq (f x) a || member a (map f xs))
  unfolding insert member
  member-map-insert a x [] = refl
  member-map-insert a x (y ∷ ys) = ground (arith, member-map-insert a x ys)

  pub member-map-sort_by :
      (a : Text) (xs : List A) → member a (map f (sort_by le xs)) ≡ member a (map f xs)
  unfolding sort_by member
  member-map-sort_by a [] = refl
  member-map-sort_by a (x ∷ xs) =
      ground (arith, member-map-insert a x (sort_by le xs), member-map-sort_by a xs)

module _ {ℓ} {A : Type ℓ} (le : A → A → Bool) where
  length-insert : (x : A) (xs : List A) → length (insert le x xs) ≡ suc (length xs)
  unfolding insert
  length-insert x [] = refl
  length-insert x (y ∷ ys) = ground (arith, length-insert x ys)

  pub length-sort_by : (xs : List A) → length (sort_by le xs) ≡ length xs
  unfolding sort_by
  length-sort_by [] = refl
  length-sort_by (x ∷ xs) = ground (arith, length-insert x (sort_by le xs), length-sort_by xs)

module _ {ℓ κ} {A : Type ℓ} (le : A → A → Bool) (P : A → Type κ) where
  pub All-insert : (x : A) (xs : List A) → P x → All P xs → All P (insert le x xs)
  unfolding insert
  All-insert x [] p h = (p, tt)
  All-insert x (y ∷ ys) p h = elim (Bool-cases (le x y)) [
    | inl first ↦ rw first (p, h)
    | inr later ↦ rw later (h.0, All-insert x ys p h.1)
  ]

  pub All-sort_by : (xs : List A) → All P xs → All P (sort_by le xs)
  unfolding sort_by
  All-sort_by [] h = tt
  All-sort_by (x ∷ xs) h = All-insert x (sort_by le xs) h.0 (All-sort_by xs h.1)
