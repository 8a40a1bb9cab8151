-- ===== src/Js/Indexes.antt =====
-- A `Set` of numbers, in the order of insertion.
use scalable_blockchain_voti.Prelude.{
  ℕ, Bool, true, false, List, [], ◌∷◌, ◌++◌, ◌==◌, if◌then◌else◌, ◌≡◌, arith, Bool-cases, inl, inr,
}

unfoldable pub has_index : ℕ → List ℕ → Bool
has_index i [] = false
has_index i (j ∷ js) = if j == i then true else has_index i js

-- Set.add
unfoldable pub add_index : List ℕ → ℕ → List ℕ
add_index js i = if has_index i js then js else js ++ i ∷ []

-- new Set(array)
unfoldable pub add_indexes : List ℕ → List ℕ → List ℕ
add_indexes seen [] = seen
add_indexes seen (i ∷ is) = add_indexes (add_index seen i) is

has_index-concat : (i : ℕ) (js : List ℕ) → has_index i (js ++ i ∷ []) ≡ true
unfolding has_index
has_index-concat i [] = ground arith
has_index-concat i (j ∷ js) = ground (arith, has_index-concat i js)

pub add_index_there : (js : List ℕ) (i : ℕ) → has_index i (add_index js i) ≡ true
unfolding add_index
add_index_there js i = elim (Bool-cases (has_index i js)) [
  | inl old ↦ rw old old
  | inr new ↦ rw new (has_index-concat i js)
]

has_index-append : (i : ℕ) (js ks : List ℕ) → has_index i js ≡ true → has_index i (js ++ ks) ≡ true
unfolding has_index
has_index-append i [] ks h = cc
has_index-append i (j ∷ js) ks h = ground (arith, has_index-append i js ks)

pub add_index_keeps :
    (i : ℕ) (js : List ℕ) (j : ℕ) → has_index i js ≡ true → has_index i (add_index js j) ≡ true
unfolding add_index
add_index_keeps i js j h = elim (Bool-cases (has_index j js)) [
  | inl old ↦ rw old h
  | inr new ↦ rw new (has_index-append i js (j ∷ []) h)
]
