-- ===== src/Base/Outcome.antt =====
-- The outcome of a member function: the object as it leaves it, and the value or the exception.
-- A throw keeps the changes made before it, as in C++.
use mathlib.Core.Path.{◌≡◌, refl}
use mathlib.Core.Logic.{◌⊎◌, inl, inr}
use mathlib.Core.Bool.{Bool, true, false}

-- The exception classes that the code throws; their messages are left out.
pub data Error : Type 0 where
  invalid_argument logic_error overflow_error runtime_error : Error

pub data Result {ℓ} (A : Type ℓ) : Type ℓ where
  ok : A → Result A
  throw : Error → Result A

-- A function of the object `S` that returns an `A` or throws.
abbrev pub M : Type 0 → Type 0 → Type 0
M S A = S → Result A × S

module _ {S A B : Type 0} where
  infixl 5 ◌>>=◌
  abbrev pub ◌>>=◌ : M S A → (A → M S B) → M S B
  ◌>>=◌ m f s = elim (m s).0 [ ok a ↦ f a (m s).1 | throw e ↦ (throw e, (m s).1) ]

module _ {S B : Type 0} where
  infixl 5 ◌>>◌
  abbrev pub ◌>>◌ : M S (Unit {0}) → M S B → M S B
  m >> k = m >>= λ _. k

module _ {S : Type 0} where
  abbrev pub pure : {A : Type 0} → A → M S A
  pure a s = (ok a, s)

  abbrev pub fail : {A : Type 0} → Error → M S A
  fail e s = (throw e, s)

  abbrev pub get : M S S
  get s = (ok s, s)

  abbrev pub modify : (S → S) → M S (Unit {0})
  modify f s = (ok tt, f s)

  -- `if (bad) throw e;`
  abbrev pub throw_if : Bool → Error → M S (Unit {0})
  throw_if true e = fail e
  throw_if false e = pure tt

  -- The object after the call.
  abbrev pub after : {A : Type 0} → M S A → S → S
  after m s = (m s).1

-- Whether the call returned.
abbrev pub returned : {A : Type 0} → Result A → Bool
returned (ok a) = true
returned (throw e) = false

pub Result-cases :
    {A : Type 0} (r : Result A) → ((a : A) × (r ≡ ok a)) ⊎ ((e : Error) × (r ≡ throw e))
Result-cases (ok a) = inl (a, refl)
Result-cases (throw e) = inr (e, refl)
