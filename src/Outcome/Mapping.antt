-- ===== src/Outcome/Mapping.antt =====
-- What `map` with a callback that may throw returns, when it returns.
use scalable_blockchain_voti.Prelude.{
  ℕ, zero, suc, ◌≡◌, refl, sym, ap, ◌∙◌, some, some_inj, List, [], ◌∷◌, length, get_elem?,
  get_elem?-some, lt-length_of_get_elem?, All, subst,
}
use scalable_blockchain_voti.Outcome.{Result, ok, map_result, >>=-eq-ok, ok_inj}

module _ {ℓ κ} {A : Type ℓ} {B : Type κ} (f : A → Result B) where
  pub map_result-cons :
      (x : A) (xs : List A) (ys : List B)
      → map_result f (x ∷ xs) ≡ ok ys
      → (y : B) × (rest : List B) × (f x ≡ ok y) × (map_result f xs ≡ ok rest) × ((y ∷ rest) ≡ ys)
  unfolding map_result
  map_result-cons x xs ys h =
      let (y, e, h1) = >>=-eq-ok (f x) _ h in
      let (rest, g, h2) = >>=-eq-ok (map_result f xs) _ h1 in (y, rest, e, g, ok_inj h2)

  pub length-map_result :
      (xs : List A) (ys : List B) → map_result f xs ≡ ok ys → length ys ≡ length xs
  unfolding map_result
  length-map_result [] ys h = ap length (sym (ok_inj h))
  length-map_result (x ∷ xs) ys h =
      let (y, rest, e, g, made) = map_result-cons x xs ys h in
      ap length (sym made) ∙ ap suc (length-map_result xs rest g)

  pub get_elem?-map_result :
      (xs : List A) (ys : List B) (i : ℕ) {y : B}
      → map_result f xs ≡ ok ys
      → get_elem? ys i ≡ some y
      → (x : A) × (get_elem? xs i ≡ some x) × (f x ≡ ok y)
  unfolding map_result
  get_elem?-map_result [] ys i h at = cc (ap (λ l. get_elem? l i) (sym (ok_inj h)))
  get_elem?-map_result (x ∷ xs) ys zero h at =
      let (y, rest, e, g, made) = map_result-cons x xs ys h in
      (x, refl, e ∙ ap ok (some_inj (rw (← made) at at)))
  get_elem?-map_result (x ∷ xs) ys (suc i) h at =
      let (y, rest, e, g, made) = map_result-cons x xs ys h in
      get_elem?-map_result xs rest i g (rw (← made) at at)

  -- The result at an index is the callback's at the element there.
  pub map_result_at :
      (xs : List A) (ys : List B) (i : ℕ) {x : A}
      → map_result f xs ≡ ok ys
      → get_elem? xs i ≡ some x
      → (y : B) × (get_elem? ys i ≡ some y) × (f x ≡ ok y)
  map_result_at xs ys i {x} h at =
      let same : length ys ≡ length xs = length-map_result xs ys h in
      let (y, at') = get_elem?-some ys i (rw same (lt-length_of_get_elem? xs i at)) in
      let (x', at'', e) = get_elem?-map_result xs ys i h at' in
      let one : x' ≡ x = some_inj (sym at'' ∙ at) in (y, at', ap f (sym one) ∙ e)

module _ {ℓ κ μ ν} {A : Type ℓ} {B : Type κ} (f : A → Result B) (P : A → Type μ)
    (Q : B → Type ν) where
  pub All-map_result :
      ((x : A) (y : B) → P x → f x ≡ ok y → Q y)
      → (xs : List A) (ys : List B) → All P xs
      → map_result f xs ≡ ok ys
      → All Q ys
  unfolding map_result
  All-map_result step [] ys p h = subst (All Q) (ok_inj h) tt
  All-map_result step (x ∷ xs) ys p h =
      let (y, rest, e, g, made) = map_result-cons f x xs ys h in
      subst (All Q) made (step x y p.0 e, All-map_result step xs rest p.1 g)
