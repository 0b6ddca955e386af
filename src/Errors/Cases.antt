-- ===== src/Errors/Cases.antt =====
-- A call followed by another, by the cases of the first one's result.
use rescuestream_api.Prelude.{◌≡◌, refl, sym, ap, ◌∙◌, String}
use rescuestream_api.Errors.{Error, Result, ok, err, wrap, Action, handle, wrapping, ◌>>=◌}

module _ {W A : Type 0} where
  -- The result of a call as a pair, by its cases.
  pub pair_cases :
      (P : Result A × W → Type 0) (c : Result A × W)
      → ((a : A) (w' : W) → c ≡ (ok a, w') → P (ok a, w'))
      → ((x : Error) (w' : W) → c ≡ (err x, w') → P (err x, w'))
      → P c
  pair_cases P (ok a, w') good bad = good a w' refl
  pair_cases P (err x, w') good bad = bad x w' refl

module _ {W A B : Type 0} where
  pub bind_cases :
      (P : Result B × W → Type 0) (m : Action W A) (f : A → Action W B) (w : W)
      → ((a : A) (w' : W) → m w ≡ (ok a, w') → P (f a w'))
      → ((x : Error) (w' : W) → m w ≡ (err x, w') → P (err x, w'))
      → P ((m >>= f) w)
  unfolding ◌>>=◌
  bind_cases P m f w good bad =
      pair_cases
        (λ c. P (elim c.0 as (λ _. Result B × W) [ ok a ↦ f a c.1 | err x ↦ (err x, c.1) ])) (m w)
        good bad

  -- The same, where the error is wrapped.
  pub wrapping-bind_cases :
      (P : Result B × W → Type 0) (s : String) (m : Action W A) (f : A → Action W B) (w : W)
      → ((a : A) (w' : W) → m w ≡ (ok a, w') → P (f a w'))
      → ((x : Error) (w' : W) → m w ≡ (err x, w') → P (err (wrap s x), w'))
      → P ((wrapping s m >>= f) w)
  unfolding ◌>>=◌ handle
  wrapping-bind_cases P s m f w good bad =
      pair_cases
        (λ c.
          P
            (elim (elim c.0 as (λ _. Result A) [ ok a ↦ ok a | err x ↦ err (wrap s x) ])
              as (λ _. Result B × W) [ ok a ↦ f a c.1 | err x ↦ (err x, c.1) ]))
        (m w) good bad

-- What both calls keep of the world.
module _ {W X : Type 0} (f : W → X) where
  abbrev pub Framed : {A : Type 0} → Action W A → Type 0
  Framed m = (w : W) → f (m w).1 ≡ f w

  -- A value of the world that a call leaves, by the call's result.
  pub left_by : {A : Type 0} {c : Result A × W} {r : Result A} {w' : W} → c ≡ (r, w') → f w' ≡ f c.1
  left_by h = ap (λ c. f c.1) (sym h)

  pub bind-Framed :
      {A B : Type 0} (m : Action W A) (k : A → Action W B)
      → Framed m
      → ((a : A) → Framed (k a))
      → Framed (m >>= k)
  bind-Framed m k first later w =
      bind_cases (λ c. f c.1 ≡ f w) m k w (λ a w' h. later a w' ∙ left_by h ∙ first w)
        (λ x w' h. left_by h ∙ first w)

  pub wrapping-Framed :
      {A : Type 0} (s : String) (m : Action W A) → Framed m → Framed (wrapping s m)
  unfolding handle
  wrapping-Framed s m framed = framed
