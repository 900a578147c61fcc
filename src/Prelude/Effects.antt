-- ===== src/Prelude/Effects.antt =====
-- Fallible actions on a state: Go's `(value, error)` returns of calls with effects. The state comes
-- back after an error too, since what was written stays written.
use mathlib.Core.Bool.{Bool, true, false}
use mathlib.Core.Path.{◌≡◌, refl}
use mathlib.Core.Logic.{◌⊎◌, inl, inr}
use mathlib.Core.Option.{Option, none, some}

pub data Result (E A : Type 0) : Type 0 where
  ok : A → Result E A
  err : E → Result E A

abbrev pub Action : Type 0 → Type 0 → Type 0 → Type 0
Action W E A = W → Result E A × W

infixl 5 ◌>>=◌ ◌>>◌
-- `a, err := m; if err != nil { return err }`
abbrev pub ◌>>=◌ : {W E A B : Type 0} → Action W E A → (A → Action W E B) → Action W E B
◌>>=◌ m f w = let (r, w') = m w in elim r [ ok a ↦ f a w' | err e ↦ (err e, w') ]

abbrev pub ◌>>◌ : {W E A B : Type 0} → Action W E A → Action W E B → Action W E B
m >> k = m >>= λ _. k

module _ {W E A : Type 0} where
  abbrev pub pure : A → Action W E A
  pure a w = (ok a, w)

  abbrev pub fail : E → Action W E A
  fail e w = (err e, w)

  -- A call whose error is handled by the code that follows.
  abbrev pub try : {F : Type 0} → Action W F A → Action W E (Result F A)
  try m w = let (r, w') = m w in (ok r, w')

  -- `_ = m`: the error is dropped.
  abbrev pub ignore : {F : Type 0} → Action W F A → Action W E (Unit {0})
  ignore m w = let (_, w') = m w in (ok tt, w')

  -- The error is replaced or wrapped.
  abbrev pub or_else : {F : Type 0} → (F → E) → Action W F A → Action W E A
  or_else g m w = let (r, w') = m w in (elim r [ ok a ↦ ok a | err e ↦ err (g e) ], w')

  abbrev pub or_fail : Option A → E → Action W E A
  or_fail none e w = (err e, w)
  or_fail (some a) e w = (ok a, w)

abbrev pub fail_if : {W E : Type 0} → Bool → E → Action W E (Unit {0})
fail_if true e w = (err e, w)
fail_if false e w = (ok tt, w)

pub Result-cases :
    {E A : Type 0} (r : Result E A) → ((a : A) × (r ≡ ok a)) ⊎ ((e : E) × (r ≡ err e))
Result-cases (ok a) = inl (a, refl)
Result-cases (err e) = inr (e, refl)

abbrev pub is_ok : {E A : Type 0} → Result E A → Bool
is_ok (ok a) = true
is_ok (err e) = false
