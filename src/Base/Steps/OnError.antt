-- ===== src/Base/Steps/OnError.antt =====
-- What holds where a step returns an error, by the way the step is built.
use mathlib.Core.Path.{◌≡◌}
use mathlib.Core.Logic.{inl, inr}
use native.Mathlib.Omega.{arith}
use stockyard.Base.Outcome.{ok, err, Result-cases}
use stockyard.Base.Steps.{Step, ◌>>=◌, ◌>>◌}

module _ {ℓ} {S E : Type 0} (P : S → Type ℓ) where
  abbrev pub OnError : {A : Type 0} → Step S E A → Type ℓ
  OnError m = (w : S) (e : E) → (m w).0 ≡ err e → P (m w).1

  pub bind-OnError :
      {A B : Type 0} (m : Step S E A) (f : A → Step S E B)
      → OnError m
      → ((a : A) → OnError (f a))
      → OnError (m >>= f)
  bind-OnError m f om of w e h = elim (Result-cases (m w).0) [
    | inl (a, q) ↦ rw (q, ◌>>=◌) (of a (m w).1 e (ground arith))
    | inr (x, q) ↦ rw (q, ◌>>=◌) (om w x q)
  ]

  -- The same, where only the values that the first step can return have to be answered for.
  pub bind-OnError_of :
      {A B : Type 0} (Q : A → Type 0) (m : Step S E A) (f : A → Step S E B)
      → OnError m
      → ((w : S) (a : A) → (m w).0 ≡ ok a → Q a)
      → ((a : A) → Q a → OnError (f a))
      → OnError (m >>= f)
  bind-OnError_of Q m f om returns of w e h = elim (Result-cases (m w).0) [
    | inl (a, q) ↦ rw (q, ◌>>=◌) (of a (returns w a q) (m w).1 e (ground arith))
    | inr (x, q) ↦ rw (q, ◌>>=◌) (om w x q)
  ]

  pub then-OnError :
      {A B : Type 0} (m : Step S E A) (k : Step S E B) → OnError m → OnError k → OnError (m >> k)
  then-OnError m k om ok' = bind-OnError m (λ _. k) om (λ _. ok')
