-- ===== src/Outcome.antt =====
-- What a call of the program comes to: a value, or a thrown error (`node:assert`, a library's own).
-- `Stateful` is a method of an object: what it wrote before it threw stays written.
pub mod Stateful
pub mod Mapping
use scalable_blockchain_voti.Prelude.{
  ℕ, String, ◌≡◌, refl, ap, Bool, true, false, ◌⊎◌, inl, inr, List, [], ◌∷◌,
}

-- `${name}`, `${name[index]}`, `${name[index].field}` and `${name[index].field[place]}` in a message
pub data Label : Type 0 where
  plain : String → Label
  at : String → ℕ → Label
  at_field : String → ℕ → String → Label
  at_place : String → ℕ → String → ℕ → Label

-- `diverged` stands for a loop that runs out of fuel; it is no behaviour of the source.
pub data Error : Type 0 where
  assertion : String → Error
  labelled : Label → String → Error
  unlabelled type_error library diverged : Error

pub data Result {ℓ} (A : Type ℓ) : Type ℓ where
  err : Error → Result A
  ok : A → Result A

-- assert.equal(test, true, message)
unfoldable pub guard : Bool → Error → Result (Unit {0})
guard false e = err e
guard true e = ok tt

-- A throw ends the sequence; what was returned goes on to the next step.
infixl 5 ◌>>=◌ ◌>>◌
abbrev pub ◌>>=◌ {ℓ κ} : {S : Type ℓ} {T : Type κ} → Result S → (S → Result T) → Result T
err e >>= next = err e
ok s >>= next = next s

abbrev pub ◌>>◌ {ℓ} : {T : Type ℓ} → Result (Unit {0}) → Result T → Result T
step >> rest = step >>= λ done. rest

pub Result-cases {ℓ} :
    {A : Type ℓ} (r : Result A) → ((a : A) × (r ≡ ok a)) ⊎ ((e : Error) × (r ≡ err e))
Result-cases (ok a) = inl (a, refl)
Result-cases (err e) = inr (e, refl)

-- A sequence that returns has returned at each step.
pub >>=-eq-ok {ℓ κ} :
    {S : Type ℓ} {T : Type κ} (step : Result S) (next : S → Result T) {t : T}
    → (step >>= next) ≡ ok t
    → (s : S) × (step ≡ ok s) × (next s ≡ ok t)
>>=-eq-ok (err e) next returned = cc
>>=-eq-ok (ok s) next returned = (s, refl, returned)

pub guard-eq-ok : (b : Bool) (e : Error) {u : Unit {0}} → guard b e ≡ ok u → b ≡ true
unfolding guard
guard-eq-ok true e h = refl
guard-eq-ok false e h = cc

pub >>-eq-ok {ℓ} :
    {B : Type ℓ} (t : Bool) (e : Error) (k : Result B) {b : B}
    → (guard t e >> k) ≡ ok b
    → (t ≡ true) × (k ≡ ok b)
unfolding guard
>>-eq-ok true e k h = (refl, h)
>>-eq-ok false e k h = cc

-- The same for a step that returns nothing.
pub then-eq-ok {ℓ} :
    {B : Type ℓ} (m : Result (Unit {0})) (k : Result B) {b : B}
    → (m >> k) ≡ ok b
    → (m ≡ ok tt) × (k ≡ ok b)
then-eq-ok (ok a) k h = (refl, h)
then-eq-ok (err e) k h = cc

abbrev ok_or {ℓ} : {A : Type ℓ} → A → Result A → A
ok_or d (ok a) = a
ok_or d (err e) = d

pub ok_inj {ℓ} : {A : Type ℓ} {a b : A} → ok a ≡ ok b → a ≡ b
ok_inj {a} h = ap (ok_or a) h

module _ {ℓ κ} {A : Type ℓ} {B : Type κ} where
  -- `xs.map(f)` with a callback that may throw
  unfoldable pub map_result : (A → Result B) → List A → Result (List B)
  map_result f [] = ok []
  map_result f (x ∷ xs) = do y ← f x; ys ← map_result f xs; ok (y ∷ ys)
