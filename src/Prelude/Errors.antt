-- ===== src/Prelude/Errors.antt =====
-- A Go function that returns `(T, error)`: a value or an error of the component's own type.
use mathlib.Core.Path.{◌≡◌, refl}
use mathlib.Core.Logic.{◌⊎◌, inl, inr}
use mathlib.Core.Bool.{Bool, true, false}

pub data Fallible (E A : Type 0) : Type 0 where
  ok : A → Fallible E A
  err : E → Fallible E A

-- `if bad { return err }`
abbrev pub reject_if : {E : Type 0} → Bool → E → Fallible E (Unit {0})
reject_if false why = ok tt
reject_if true why = err why

infixl 5 ◌>>=◌
abbrev pub ◌>>=◌ : {E A B : Type 0} → Fallible E A → (A → Fallible E B) → Fallible E B
err why >>= next = err why
ok value >>= next = next value

abbrev pub passes : {E A : Type 0} → Fallible E A → Bool
passes (ok a) = true
passes (err e) = false

-- A statement whose value is not used.
infixl 5 ◌>>◌
abbrev pub ◌>>◌ : {E B : Type 0} → Fallible E (Unit {0}) → Fallible E B → Fallible E B
first >> second = first >>= λ u. second

-- A chain ends well only when its first part does.
pub >>=-eq-ok :
    {E A B : Type 0} (first : Fallible E A) (next : A → Fallible E B) {last : B}
    → (first >>= next) ≡ ok last
    → (mid : A) × (first ≡ ok mid) × (next mid ≡ ok last)
>>=-eq-ok (err why) next done = cc
>>=-eq-ok (ok mid) next done = (mid, refl, done)

pub Fallible-cases :
    {E A : Type 0} (m : Fallible E A) → ((a : A) × (m ≡ ok a)) ⊎ ((e : E) × (m ≡ err e))
Fallible-cases (ok a) = inl (a, refl)
Fallible-cases (err e) = inr (e, refl)
