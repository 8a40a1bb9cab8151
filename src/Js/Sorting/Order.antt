-- ===== src/Js/Sorting/Order.antt =====
-- `sort()` of different texts is ascending, and only its set of elements matters.
use scalable_blockchain_voti.Prelude.{
  ◌≡◌, refl, sym, ◌∙◌, true, false, ◌||◌, List, [], ◌∷◌, arith, inl, inr, Bool-cases, All, All-imp,
}
use scalable_blockchain_voti.Js.Texts.{
  Text, text_eq, text_eq_iff, text_eq_refl, text_lt, text_lt_irrefl, text_lt_trans, text_lt_total,
}
use scalable_blockchain_voti.Js.Sets.{member, IsUnique}
use scalable_blockchain_voti.Js.Sorting.{insert, sort_by, sort_texts, text_le, IsAscending}
use scalable_blockchain_voti.Js.Sorting.Elements.{All-insert}

module _ (a : Text) where
  member-insert :
      (x : Text) (xs : List Text) → member a (insert text_le x xs) ≡ (text_eq x a || member a xs)
  unfolding insert member
  member-insert x [] = refl
  member-insert x (y ∷ ys) = ground (arith, member-insert x ys)

  member-sort_by : (xs : List Text) → member a (sort_by text_le xs) ≡ member a xs
  unfolding sort_by member
  member-sort_by [] = refl
  member-sort_by (x ∷ xs) = ground (arith, member-insert x (sort_by text_le xs), member-sort_by xs)

  pub member-sort_texts : (xs : List Text) → member a (sort_texts xs) ≡ member a xs
  unfolding sort_texts
  member-sort_texts xs = member-sort_by xs

  -- What is after every element is none of them.
  after-All : (xs : List Text) → All (λ y. text_lt a y ≡ true) xs → member a xs ≡ false
  unfolding member
  after-All [] h = refl
  after-All (x ∷ xs) h =
      ground (arith, after-All xs h.1, text_eq_iff x a, text_lt_irrefl a, equal_lt)
    where
      equal_lt : x ≡ a → text_lt a a ≡ true
      equal_lt e = subst_lt e h.0
        where
          subst_lt : x ≡ a → text_lt a x ≡ true → text_lt a a ≡ true
          subst_lt e h = rw e at h

  below_member :
      (x : Text) (xs : List Text)
      → All (λ y. text_lt x y ≡ true) xs
      → member a xs ≡ true
      → text_lt x a ≡ true
  unfolding member
  below_member x [] h m = cc
  below_member x (y ∷ ys) h m = elim (Bool-cases (text_eq y a)) [
    | inl same ↦ rw ((text_eq_iff y a).0 same) at (h.0)
    | inr other ↦ below_member x ys h.1 (rw other at m)
  ]

insert-IsAscending :
    (x : Text) (xs : List Text)
    → IsAscending xs
    → member x xs ≡ false
    → IsAscending (insert text_le x xs)
unfolding insert member
insert-IsAscending x [] s m = (tt, tt)
insert-IsAscending x (y ∷ ys) s m = elim (Bool-cases (text_lt y x)) [
  | inl after ↦ rw after (
    All-insert text_le (λ z. text_lt y z ≡ true) x ys after s.0,
    insert-IsAscending x ys s.1 (ground arith),
  )
  | inr before ↦
      let first : text_lt x y ≡ true = text_lt_total y x before (ground arith) in
      rw before ((first, All-imp ys (λ z. text_lt_trans x y z first) s.0), s)
]

pub sort_texts-IsAscending : (xs : List Text) → IsUnique xs → IsAscending (sort_texts xs)
unfolding sort_texts sort_by
sort_texts-IsAscending [] u = tt
sort_texts-IsAscending (x ∷ xs) u =
    insert-IsAscending x (sort_by text_le xs) (sort_texts-IsAscending xs u.1)
      (member-sort_by x xs ∙ u.0)

not_both : (x y : Text) → text_lt x y ≡ true → text_lt y x ≡ true → ⊥
not_both x y p q = ground (arith, text_lt_trans x y x p q, text_lt_irrefl x)

heads_equal :
    (x : Text) (xs : List Text) (y : Text) (ys : List Text)
    → IsAscending (x ∷ xs)
    → IsAscending (y ∷ ys)
    → ((a : Text) → member a (x ∷ xs) ≡ member a (y ∷ ys))
    → x ≡ y
unfolding member
heads_equal x xs y ys sx sy same = elim (Bool-cases (text_eq y x)) [
  | inl e ↦ sym ((text_eq_iff y x).0 e)
  | inr ne ↦ absurd (
      not_both x y
        (below_member y x xs sx.0
          (ground (arith, same y, text_eq_refl y, text_eq_iff x y, text_eq_iff y x)))
        (below_member x y ys sy.0 (ground (arith, same x, text_eq_refl x))))
]

-- Two ascending lists with the same elements are one list.
pub ascending_unique :
    (xs ys : List Text)
    → IsAscending xs
    → IsAscending ys
    → ((a : Text) → member a xs ≡ member a ys)
    → xs ≡ ys
unfolding member
ascending_unique [] [] sx sy same = refl
ascending_unique [] (y ∷ ys) sx sy same = ground (arith, same y, text_eq_refl y)
ascending_unique (x ∷ xs) [] sx sy same = ground (arith, same x, text_eq_refl x)
ascending_unique (x ∷ xs) (y ∷ ys) sx sy same =
    let e : x ≡ y = heads_equal x xs y ys sx sy same in
    cc (e, ascending_unique xs ys sx.1 sy.1 (tails e))
  where
    tails : x ≡ y → (a : Text) → member a xs ≡ member a ys
    tails e a =
        ground (
          arith,
          same a,
          after-All x xs sx.0,
          after-All y ys sy.0,
          text_eq_iff x a,
          text_eq_iff y a,
        )
