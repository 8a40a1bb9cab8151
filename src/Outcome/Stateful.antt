-- ===== src/Outcome/Stateful.antt =====
-- Methods that change an object and may throw. The state comes back beside the error too, since an
-- exception undoes nothing.
use scalable_blockchain_voti.Prelude.{◌≡◌, refl, ap}
use scalable_blockchain_voti.Outcome.{Result, ok, err}

abbrev pub Stateful : Type 0 → Type 0 → Type 0
Stateful S A = S → Result A × S

-- What follows a call that may have thrown.
abbrev pub and_then : {S A B : Type 0} → Result A × S → (A → S → Result B × S) → Result B × S
and_then (ok a, s) f = f a s
and_then (err e, s) f = (err e, s)

-- A sequence that returns has returned at its first step.
pub and_then-eq-ok :
    {S A B : Type 0} (p : Result A × S) (f : A → S → Result B × S) {b : B} {t : S}
    → and_then p f ≡ (ok b, t)
    → (a : A) × (s : S) × (p ≡ (ok a, s)) × (f a s ≡ (ok b, t))
and_then-eq-ok (ok a, s) f h = (a, s, refl, h)
and_then-eq-ok (err e, s) f h = cc (ap (λ r. r.0) h)
