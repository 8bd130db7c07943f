-- ===== src/Base/Results.antt =====
-- A computation that returns a value or raises an exception.
use mathlib.Core.Path.{◌≡◌, refl}
use mathlib.Core.Logic.{◌⊎◌, inl, inr}
use mathlib.Core.Bool.{Bool, true, false}

pub data Result (E A : Type 0) : Type 0 where
  ok : A → Result E A
  err : E → Result E A

module _ {E : Type 0} where
  infixl 5 ◌>>=◌ ◌>>◌
  abbrev pub ◌>>=◌ : {A B : Type 0} → Result E A → (A → Result E B) → Result E B
  ok a >>= f = f a
  err e >>= f = err e

  abbrev pub ◌>>◌ : {B : Type 0} → Result E (Unit {0}) → Result E B → Result E B
  m >> k = m >>= λ _. k

  -- `if bad: raise e`
  abbrev pub reject : Bool → E → Result E (Unit {0})
  reject true e = err e
  reject false e = ok tt

  pub Result-cases :
      {A : Type 0} (r : Result E A) → ((a : A) × (r ≡ ok a)) ⊎ ((e : E) × (r ≡ err e))
  Result-cases (ok a) = inl (a, refl)
  Result-cases (err e) = inr (e, refl)

  -- A chain that returns a value has a first part that does, and goes on from its value.
  pub >>=-eq-ok :
      {A B : Type 0} (first : Result E A) (then : A → Result E B) {end : B}
      → first >>= then ≡ ok end
      → (mid : A) × (first ≡ ok mid) × (then mid ≡ ok end)
  >>=-eq-ok (err problem) then returns = cc
  >>=-eq-ok (ok mid) then returns = (mid, refl, returns)
