-- ===== src/Js/Sorting/Increasing.antt =====
-- Numbers that are sorted.
use scalable_blockchain_voti.Prelude.{
  ℕ, ◌<◌, ◌≢◌, List, [], ◌∷◌, Bool-cases, inl, inr, leb, leb→le, All, All-imp, arith,
}
use scalable_blockchain_voti.Js.Sorting.{insert, sort_by}
use scalable_blockchain_voti.Js.Sorting.Elements.{All-insert, All-sort_by}

-- All different.
abbrev pub IsDistinct : List ℕ → Type 0
IsDistinct [] = Unit
IsDistinct (i ∷ is) = All (λ j. i ≢ j) is × IsDistinct is

-- Each index is smaller than those after it.
abbrev pub IsIncreasing : List ℕ → Type 0
IsIncreasing [] = Unit
IsIncreasing (i ∷ is) = All (λ j. i < j) is × IsIncreasing is

insert-IsIncreasing :
    (i : ℕ) (is : List ℕ) → All (λ j. i ≢ j) is → IsIncreasing is → IsIncreasing (insert leb i is)
unfolding insert
insert-IsIncreasing i [] ne up = (tt, tt)
insert-IsIncreasing i (j ∷ is) ne up = elim (Bool-cases (leb i j)) [
  | inl first ↦ rw first (
      let less : i < j = (let le = leb→le i j first in omega (arith, le, ne.0)) in
      ((less, All-imp is (λ k below. omega (arith, less, below)) up.0), up))
  | inr later ↦
      rw later
        (All-insert leb (λ k. j < k) i is (ground arith) up.0, insert-IsIncreasing i is ne.1 up.1)
]

pub sort_by-IsIncreasing : (is : List ℕ) → IsDistinct is → IsIncreasing (sort_by leb is)
unfolding sort_by
sort_by-IsIncreasing [] d = tt
sort_by-IsIncreasing (i ∷ is) d =
    insert-IsIncreasing i (sort_by leb is) (All-sort_by leb (λ j. i ≢ j) is d.0)
      (sort_by-IsIncreasing is d.1)
