-- ===== src/Prelude/Results.antt =====
-- A Go result `(value, error)`: one of the two.
use mathlib.Core.Path.{◌≡◌, refl}
use mathlib.Core.Logic.{◌⊎◌, inl, inr}
use mathlib.Core.Bool.{Bool, true, false}

pub data Result (E : Type 0) (A : Type 0) : Type 0 where
  ok : A → Result E A
  err : E → Result E A

infixl 5 ◌>>=◌ ◌>>◌
-- The next step runs on a value and is skipped on an error.
abbrev pub ◌>>=◌ : {E A B : Type 0} → Result E A → (A → Result E B) → Result E B
err e >>= next = err e
ok x >>= next = next x

abbrev pub ◌>>◌ : {E B : Type 0} → Result E (Unit {0}) → Result E B → Result E B
checked >> rest = checked >>= λ _. rest

-- `if !passed { return e }`
abbrev pub require : {E : Type 0} → Bool → E → Result E (Unit {0})
require false e = err e
require true e = ok tt

pub ok-injective : {E A : Type 0} {a b : A} → ◌≡◌ {A = Result E A} (ok a) (ok b) → a ≡ b
ok-injective same = cc

-- A chain that ends well had a value to run on.
pub >>=-eq-ok :
    {E A B : Type 0} (r : Result E A) (next : A → Result E B) {out : B}
    → (r >>= next) ≡ ok out
    → (x : A) × (r ≡ ok x) × (next x ≡ ok out)
>>=-eq-ok (err e) next ends = cc
>>=-eq-ok (ok x) next ends = (x, refl, ends)

pub require-eq-ok :
    {E B : Type 0} (passed : Bool) (e : E) (rest : Result E B) {out : B}
    → (require passed e >> rest) ≡ ok out
    → (passed ≡ true) × (rest ≡ ok out)
require-eq-ok false e rest ends = cc
require-eq-ok true e rest ends = (refl, ends)

pub require-ok : {E : Type 0} (passed : Bool) (e : E) → require passed e ≡ ok tt → passed ≡ true
require-ok false e ends = cc
require-ok true e ends = refl

-- To split on a computed result and keep the equation.
pub Result-cases :
    {E A : Type 0} (r : Result E A) → ((x : A) × (r ≡ ok x)) ⊎ ((e : E) × (r ≡ err e))
Result-cases (ok x) = inl (x, refl)
Result-cases (err e) = inr (e, refl)
