-- ===== src/Js/Sets.antt =====
-- `Set` of strings: its elements in the order in which they were added.
use scalable_blockchain_voti.Prelude.{
  ◌≡◌, refl, sym, ap, map, ◌∙◌, Bool, true, false, ◌||◌, List, [], ◌∷◌, ◌++◌, inl, inr, arith,
  if◌then◌else◌, Bool-cases, All, subst, ℕ, zero, suc, get_elem?, some, some_inj,
}
use scalable_blockchain_voti.Js.Texts.{Text, text_eq, text_eq_iff, text_eq_refl, lower}

-- `set.has(x)`, `includes`
unfoldable pub member : Text → List Text → Bool
member a [] = false
member a (x ∷ xs) = text_eq x a || member a xs

-- `set.add(x)`
unfoldable pub set_add : List Text → Text → List Text
set_add seen x = if member x seen then seen else seen ++ x ∷ []

set_from : List Text → List Text → List Text
set_from seen [] = seen
set_from seen (x ∷ xs) = set_from (set_add seen x) xs

-- `[...new Set(xs)]`
unfoldable pub set_of : List Text → List Text
unfolding set_from set_add
set_of xs = set_from [] xs

-- No element occurs twice.
abbrev pub IsUnique : List Text → Type 0
IsUnique [] = Unit
IsUnique (x ∷ xs) = (member x xs ≡ false) × IsUnique xs

pub member-append :
    (a : Text) (xs ys : List Text) → member a (xs ++ ys) ≡ (member a xs || member a ys)
unfolding member
member-append a [] ys = refl
member-append a (x ∷ xs) ys = ground (arith, member-append a xs ys)

pub IsUnique-concat :
    (xs : List Text) (a : Text) → IsUnique xs → member a xs ≡ false → IsUnique (xs ++ a ∷ [])
unfolding member
IsUnique-concat [] a u h = (refl, tt)
IsUnique-concat (x ∷ xs) a u h = (
  ground (arith, member-append x xs (a ∷ []), text_eq_iff x a, text_eq_iff a x),
  IsUnique-concat xs a u.1 (ground arith),
)

member-set_add :
    (a : Text) (seen : List Text) (x : Text)
    → member a (set_add seen x) ≡ (member a seen || text_eq x a)
unfolding set_add member
member-set_add a seen x =
    ground (arith, member-append a seen (x ∷ []), text_eq_iff x a, member_of_eq)
  where
    member_of_eq : text_eq x a ≡ true → member a seen ≡ member x seen
    member_of_eq e = rw ((text_eq_iff x a).0 e)

IsUnique-set_add : (seen : List Text) (x : Text) → IsUnique seen → IsUnique (set_add seen x)
unfolding set_add
IsUnique-set_add seen x u = elim (Bool-cases (member x seen)) [
  | inl old ↦ rw old u
  | inr new ↦ rw new (IsUnique-concat seen x u new)
]

member-set_from :
    (a : Text) (seen xs : List Text) → member a (set_from seen xs) ≡ (member a seen || member a xs)
unfolding set_from member
member-set_from a seen [] = ground arith
member-set_from a seen (x ∷ xs) =
    ground (arith, member-set_from a (set_add seen x) xs, member-set_add a seen x)

IsUnique-set_from : (seen xs : List Text) → IsUnique seen → IsUnique (set_from seen xs)
unfolding set_from
IsUnique-set_from seen [] u = u
IsUnique-set_from seen (x ∷ xs) u =
    IsUnique-set_from (set_add seen x) xs (IsUnique-set_add seen x u)

pub member-set_of : (a : Text) (xs : List Text) → member a (set_of xs) ≡ member a xs
unfolding set_of member
member-set_of a xs = member-set_from a [] xs

pub set_of-IsUnique : (xs : List Text) → IsUnique (set_of xs)
unfolding set_of
set_of-IsUnique xs = IsUnique-set_from [] xs tt

-- An element is in neither part of a list without repetition that it stands in the middle of.
pub not-member_of_IsUnique :
    (xs : List Text) (a : Text) (ys : List Text) → IsUnique (xs ++ a ∷ ys) → member a xs ≡ false
unfolding member
not-member_of_IsUnique [] a ys u = refl
not-member_of_IsUnique (x ∷ xs) a ys u = ground (
  arith,
  not-member_of_IsUnique xs a ys u.1,
  member-append x xs (a ∷ ys),
  text_eq_iff x a,
  text_eq_iff a x,
)

module _ {ℓ} (P : Text → Type ℓ) where
  All-member : (xs : List Text) (a : Text) → All P xs → member a xs ≡ true → P a
  unfolding member
  All-member [] a h m = cc
  All-member (x ∷ xs) a h m = elim (Bool-cases (text_eq x a)) [
    | inl same ↦ subst P ((text_eq_iff x a).0 same) h.0
    | inr other ↦ All-member xs a h.1 (rw other at m)
  ]

  All-of_members : (xs : List Text) → ((a : Text) → member a xs ≡ true → P a) → All P xs
  unfolding member
  All-of_members [] h = tt
  All-of_members (x ∷ xs) h =
      (h x (rw (text_eq_refl x) refl), All-of_members xs (λ a m. h a (ground (arith, m))))

  -- What holds of each element of a list holds of any list of its elements.
  pub All-subset :
      (xs ys : List Text) → All P xs → ((a : Text) → member a ys ≡ member a xs) → All P ys
  All-subset xs ys h same = All-of_members ys (λ a m. All-member xs a h (sym (same a) ∙ m))

pub member_of_get_elem? :
    (xs : List Text) (i : ℕ) {a : Text} → get_elem? xs i ≡ some a → member a xs ≡ true
unfolding member
member_of_get_elem? [] i h = cc
member_of_get_elem? (x ∷ xs) zero {a} h = rw (some_inj h, text_eq_refl a) refl
member_of_get_elem? (x ∷ xs) (suc i) h = ground (arith, member_of_get_elem? xs i h)

pub member-map-lower :
    (a : Text) (xs : List Text) → lower a ≡ a → member a xs ≡ true → member a (map lower xs) ≡ true
unfolding member
member-map-lower a [] e m = cc
member-map-lower a (x ∷ xs) e m = elim (Bool-cases (text_eq x a)) [
  | inl same ↦ rw ((text_eq_iff (lower x) a).1 (ap lower ((text_eq_iff x a).0 same) ∙ e)) refl
  | inr other ↦ ground (arith, member-map-lower a xs e (rw other at m))
]

-- The two parts of a list without repetition have no element in common.
pub not-member_left :
    (a : Text) (xs ys : List Text) → IsUnique (xs ++ ys) → member a ys ≡ true → member a xs ≡ false
unfolding member
not-member_left a [] ys u m = refl
not-member_left a (x ∷ xs) ys u m =
    ground (arith, not-member_left a xs ys u.1 m, member-append x xs ys, text_eq_iff x a, same)
  where
    same : x ≡ a → member a ys ≡ member x ys
    same e = rw e refl
