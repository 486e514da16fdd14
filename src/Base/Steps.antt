-- ===== src/Base/Steps.antt =====
-- Code that changes a state `S` and may return an error `E`. What an error path changed stays changed.
pub mod OnError
use mathlib.Core.Bool.{Bool, true, false}
use stockyard.Base.Outcome.{Result, ok, err}

abbrev pub Step : Type 0 → Type 0 → Type 0 → Type 0
Step S E A = S → Result E A × S

module _ {S E : Type 0} where
  infixl 5 ◌>>=◌ ◌>>◌
  abbrev pub ◌>>=◌ : {A B : Type 0} → Step S E A → (A → Step S E B) → Step S E B
  ◌>>=◌ m f w = let (r, w') = m w in elim r [ ok a ↦ f a w' | err e ↦ (err e, w') ]

  abbrev pub ◌>>◌ : {A B : Type 0} → Step S E A → Step S E B → Step S E B
  ◌>>◌ m k w = let (r, w') = m w in elim r [ ok a ↦ k w' | err e ↦ (err e, w') ]

  abbrev pub return : {A : Type 0} → A → Step S E A
  return a w = (ok a, w)

  abbrev pub throw : {A : Type 0} → E → Step S E A
  throw e w = (err e, w)

  abbrev pub done : Step S E (Unit {0})
  done w = (ok tt, w)

  abbrev pub when : Bool → Step S E (Unit {0}) → Step S E (Unit {0})
  when true m w = m w
  when false m w = (ok tt, w)

  -- What the code drops the error of.
  abbrev pub ignore : {A : Type 0} → Step S E A → Step S E (Unit {0})
  ignore m w = let (r, w') = m w in (ok tt, w')

  -- The error and not the end: the code looks at it and goes on.
  abbrev pub outcome_of : {A : Type 0} → Step S E A → Step S E (Result E A)
  outcome_of m w = let (r, w') = m w in (ok r, w')

  -- `fmt.Errorf("...: %w", err)` around a step.
  abbrev pub map_err : {A : Type 0} → (E → E) → Step S E A → Step S E A
  map_err f m w = let (r, w') = m w in elim r [ ok a ↦ (ok a, w') | err e ↦ (err (f e), w') ]
