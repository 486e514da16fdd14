-- ===== src/Daemon/Keeps.antt =====
-- Properties of the world that a method keeps, on success and on failure, by the way it is built.
-- `Closed P`: one more call in the history does not matter to `P`.
use stockyard.Base.{Bool, true, false, ◌∷◌, Option-cases, inl, inr, Result-cases}
use stockyard.Daemon.World.{
  Call, check_context, Env, World, M, ◌>>=◌, ◌>>◌, done, when, ignore, effect, call, check_ctx,
}

abbrev pub Keeps {ℓ} : {A : Type 0} → (World → Type ℓ) → M A → Type ℓ
Keeps P m = (w : World) → P w → P (m w).1

abbrev pub Closed {ℓ} : (World → Type ℓ) → Type ℓ
Closed P = (c : Call) (w : World) → P w → P (record w { history = c ∷ w.history })

module _ {ℓ} (P : World → Type ℓ) where
  pub bind-Keeps :
      {A B : Type 0} (m : M A) (f : A → M B)
      → Keeps P m
      → ((a : A) → Keeps P (f a))
      → Keeps P (m >>= f)
  bind-Keeps m f km kf w h = elim (Result-cases (m w).0) [
    | inl (a, e) ↦ rw (e, ◌>>=◌) (kf a (m w).1 (km w h))
    | inr (x, e) ↦ rw (e, ◌>>=◌) (km w h)
  ]

  pub then-Keeps : {A B : Type 0} (m : M A) (k : M B) → Keeps P m → Keeps P k → Keeps P (m >> k)
  then-Keeps m k km kk = bind-Keeps m (λ _. k) km (λ _. kk)

  pub when-Keeps : (b : Bool) (m : M (Unit {0})) → Keeps P m → Keeps P (when b m)
  when-Keeps true m km w h = km w h
  when-Keeps false m km w h = h

  pub ignore-Keeps : (m : M (Unit {0})) → Keeps P m → Keeps P (ignore m)
  ignore-Keeps m km = km

  pub done-Keeps : Keeps P done
  done-Keeps w h = h

  module _ (closed : Closed P) where
    pub effect-Keeps : (c : Call) → Keeps P (effect c)
    effect-Keeps c w h = closed c w h

    pub call-Keeps : (env : Env) (c : Call) → Keeps P (call env c)
    call-Keeps env c w h = elim (Option-cases (env.outcome (c ∷ w.history))) [
      | inl e ↦ rw (e, call) (closed c w h)
      | inr (text, e) ↦ rw (e, call) (closed c w h)
    ]

    pub check_ctx-Keeps : (env : Env) → Keeps P (check_ctx env)
    check_ctx-Keeps env w h = elim (Option-cases (env.outcome (check_context ∷ w.history))) [
      | inl e ↦ rw (e, check_ctx) (closed check_context w h)
      | inr (text, e) ↦ rw (e, check_ctx) (closed check_context w h)
    ]

    pub effect_if-Keeps : (b : Bool) (c : Call) → Keeps P (when b (effect c))
    effect_if-Keeps b c = when-Keeps b (effect c) (effect-Keeps c)

    pub ignored_if-Keeps :
        (env : Env) (b : Bool) (c : Call) → Keeps P (when b (ignore (call env c)))
    ignored_if-Keeps env b c =
        when-Keeps b (ignore (call env c)) (ignore-Keeps (call env c) (call-Keeps env c))

    -- A call, then a look at the context, as the code that destroys does it.
    pub checked-Keeps : (env : Env) (c : Call) → Keeps P (call env c >> check_ctx env)
    checked-Keeps env c =
        then-Keeps (call env c) (check_ctx env) (call-Keeps env c) (check_ctx-Keeps env)
