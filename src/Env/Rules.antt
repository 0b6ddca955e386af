-- ===== src/Env/Rules.antt =====
-- Rules for a call that is followed by another, and for a statement whose error is wrapped.
use rescuestream_api.Prelude.{◌≡◌, refl, sym, ap, ◌∙◌}
use rescuestream_api.Errors.{Error, Result, ok, err, Action, handle, ◌>>=◌}
use rescuestream_api.Store.{Tables, Stmt}
use rescuestream_api.Env.{Env, Ran}

pub ok≢err : {A : Type 0} {a : A} {x : Error} → ¬ (ok a ≡ err x)
ok≢err h = cc

module _ {W A B : Type 0} where
  -- What holds after both, and after the first if it fails.
  pub bind_rule :
      (Post : Result B × W → Type 0) (m : Action W A) (f : A → Action W B) (w : W)
      → ((a : A) → (m w).0 ≡ ok a → Post (f a (m w).1))
      → ((x : Error) → (m w).0 ≡ err x → Post (err x, (m w).1))
      → Post ((m >>= f) w)
  unfolding ◌>>=◌
  bind_rule Post m f w good bad = after (m w).0 (m w).1 good bad
    where
      after :
          (r : Result A) (w' : W)
          → ((a : A) → r ≡ ok a → Post (f a w'))
          → ((x : Error) → r ≡ err x → Post (err x, w'))
          → Post (elim r as (λ _. Result B × W) [ ok a ↦ f a w' | err x ↦ (err x, w') ])
      after (ok a) w' good' bad' = good' a refl
      after (err x) w' good' bad' = bad' x refl

  -- A call whose outcome is known.
  pub bind_ok :
      (m : Action W A) (f : A → Action W B) (w : W) {a : A}
      → (m w).0 ≡ ok a
      → (m >>= f) w ≡ f a (m w).1
  bind_ok m f w {a} h =
      bind_rule (λ r. r ≡ f a (m w).1) m f w (λ b e. cc) (λ x e. absurd (ok≢err (sym h ∙ e)))

  pub bind_err :
      (m : Action W A) (f : A → Action W B) (w : W) {x : Error}
      → (m w).0 ≡ err x
      → (m >>= f) w ≡ (err x, (m w).1)
  bind_err m f w {x} h =
      bind_rule (λ r. r ≡ (err x, (m w).1)) m f w (λ b e. absurd (ok≢err (sym e ∙ h))) (λ y e. cc)

module _ {A : Type 0} where
  same_ok :
      (g : Error → Error) (r : Result A) {a : A}
      → (elim r as (λ _. Result A) [ ok b ↦ ok b | err x ↦ err (g x) ]) ≡ ok a
      → r ≡ ok a
  same_ok g (ok b) h = h
  same_ok g (err x) h = cc

  Ran-eq-ok :
      (s : Stmt A) (t t' : Tables) (r : Result A) {a : A}
      → Ran s t r t'
      → r ≡ ok a
      → s t ≡ ok (a, t')
  Ran-eq-ok s t t' (ok b) ran h =
      ran
      ∙ ap
          (λ (r : Result A). elim r as (λ _. Result (A × Tables)) [
            | ok c ↦ ok (c, t')
            | err x ↦ err x
          ])
          h
  Ran-eq-ok s t t' (err x) ran h = cc

module _ (e : Env) {A : Type 0} (s : Stmt A) (w : e.World) where
  -- A statement that succeeded had its effect.
  pub run-eq-ok :
      (g : Error → Error) {a : A}
      → (handle ok g (e.run s) w).0 ≡ ok a
      → s (e.tables w) ≡ ok (a, e.tables (handle ok g (e.run s) w).1)
  unfolding handle
  run-eq-ok g h = Ran-eq-ok s (e.tables w) _ _ (e.run_lem s w) (same_ok g _ h)
