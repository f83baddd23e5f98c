-- ===== src/Prelude/Results.antt =====
-- Results with an error type, and their chains.
use mathlib.Core.Path.{◌≡◌, refl}
use native.Mathlib.Omega.{arith}
use mathlib.Core.Bool.{Bool, true, false}
use mathlib.Core.Option.{Option, none, some}

pub data Result (E A : Type 0) : Type 0 where
  ok : A → Result E A
  err : E → Result E A

infixl 5 ◌>>=◌ ◌>>◌
abbrev pub ◌>>=◌ : {E A B : Type 0} → Result E A → (A → Result E B) → Result E B
ok a >>= f = f a
err e >>= f = err e

abbrev pub ◌>>◌ : {E B : Type 0} → Result E (Unit {0}) → Result E B → Result E B
m >> k = m >>= λ _. k

-- `if !test { return Err(e) }`
abbrev pub require : {E : Type 0} → Bool → E → Result E (Unit {0})
require true e = ok tt
require false e = err e

-- `option.ok_or(e)?`
abbrev pub ok_or : {E A : Type 0} → Option A → E → Result E A
ok_or (some a) e = ok a
ok_or none e = err e

-- What holds of each case of a result, under its equation, holds of the whole.
pub result_cases :
    {E A : Type 0} (Q : A → Type 0) (r : Result E (Unit {0})) (f : E → A) (x : A)
    → ((e : E) → r ≡ err e → Q (f e))
    → (r ≡ ok tt → Q x)
    → Q (elim r [ err e ↦ f e | ok u ↦ x ])
result_cases Q (ok tt) f x g h = h refl
result_cases Q (err e) f x g h = g e refl

-- A chain that succeeds has a first part that succeeds.
pub bind_ok :
    {E A B : Type 0} (r : Result E A) (f : A → Result E B) (b : B)
    → (r >>= f) ≡ ok b
    → (a : A) × (r ≡ ok a) × (f a ≡ ok b)
bind_ok (ok a) f b h = (a, refl, h)
bind_ok (err e) f b h = absurd (ground (arith, h))
