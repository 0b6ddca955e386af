-- ===== src/Env/Healthy.antt =====
-- Calls while the server can be reached.
use rescuestream_api.Prelude.{
  ◌≡◌, refl, subst, ap, ◌∙◌, String, true, false, none, some, List, head?, arith, Bool, false,
  if◌then◌else◌,
}
use rescuestream_api.Errors.{
  external, Error, no_rows, Result, ok, err, Action, handle, pure, fail, attempt, ◌>>=◌,
}
use rescuestream_api.Store.{Tables, Stmt, query_row, with_text, has_nul}
use rescuestream_api.Env.{Env, Answers, Ended}
use rescuestream_api.Env.Rules.{bind_ok, bind_err}

query_row-some :
    {R : Type 0} (rows : Tables → List R) (t : Tables) {r : R}
    → head? (rows t) ≡ some r
    → query_row rows t ≡ ok (r, t)
query_row-some rows t h = ground arith

query_row-none :
    {R : Type 0} (rows : Tables → List R) (t : Tables)
    → head? (rows t) ≡ none
    → query_row rows t ≡ err no_rows
query_row-none rows t h = ground arith

module _ (e : Env) where
  open e use {World, tables, healthy, run, run_healthy, begin_func, begin_healthy}

  -- The call returns `r`, leaves the tables `t` and a server that can be reached.
  pub record Gives {A : Type 0} (m : Action World A) (w : World) (r : Result A) (t : Tables)
      : Type 0 where
    pub result : (m w).0 ≡ r
    pub left : tables (m w).1 ≡ t
    pub up : healthy (m w).1 ≡ true

  module _ {A : Type 0} (s : Stmt A) (w : World) (up : healthy w ≡ true) where
    pub run_ok : {a : A} {t : Tables} → s (tables w) ≡ ok (a, t) → Gives (run s) w (ok a) t
    run_ok h =
        let answer =
          subst (λ r. Answers tables healthy r (tables w) (run s w)) h (run_healthy s w up) in
        record { result = answer.0; left = answer.1; up = answer.2 }

    pub run_err : {x : Error} → s (tables w) ≡ err x → Gives (run s) w (err x) (tables w)
    run_err h =
        let answer =
          subst (λ r. Answers tables healthy r (tables w) (run s w)) h (run_healthy s w up) in
        record { result = answer.0; left = answer.1; up = answer.2 }

  module _ {A B : Type 0} (f : A → Result B) (g : Error → Error) (m : Action World A)
      (w : World) where
    pub handle_ok : {a : A} {t : Tables} → Gives m w (ok a) t → Gives (handle f g m) w (f a) t
    unfolding handle
    handle_ok c = record {
      result = ap (λ r. elim r as (λ _. Result B) [ ok b ↦ f b | err x ↦ err (g x) ]) c.result;
      left = c.left;
      up = c.up;
    }

    pub handle_err :
        {x : Error} {t : Tables} → Gives m w (err x) t → Gives (handle f g m) w (err (g x)) t
    unfolding handle
    handle_err c = record {
      result = ap (λ r. elim r as (λ _. Result B) [ ok b ↦ f b | err x ↦ err (g x) ]) c.result;
      left = c.left;
      up = c.up;
    }

  -- A statement with a text that the server takes.
  pub run_ok_text :
      {A : Type 0} (text : String) (s : Stmt A) (w : World) {a : A} {t : Tables}
      → healthy w ≡ true
      → has_nul text ≡ false
      → s (tables w) ≡ ok (a, t)
      → Gives (run (with_text text s)) w (ok a) t
  run_ok_text text s w up clean h = run_ok (with_text text s) w up (rw (clean, with_text) h)

  module _ {R : Type 0} (rows : Tables → List R) (w : World) (up : healthy w ≡ true) where
    pub text_some :
        (text : String) {r : R}
        → has_nul text ≡ false
        → head? (rows (tables w)) ≡ some r
        → Gives (run (with_text text (query_row rows))) w (ok r) (tables w)
    text_some text clean h =
        run_ok_text text (query_row rows) w up clean (query_row-some rows (tables w) h)

    pub text_none :
        (text : String)
        → has_nul text ≡ false
        → head? (rows (tables w)) ≡ none
        → Gives (run (with_text text (query_row rows))) w (err no_rows) (tables w)
    text_none text clean h =
        run_err (with_text text (query_row rows)) w up
          (rw (clean, with_text) (query_row-none rows (tables w) h))

    -- A text that the server refuses.
    pub text_refused :
        (text : String)
        → has_nul text ≡ true
        → Gives
            (run (with_text text (query_row rows)))
            w
            (err (external "invalid byte sequence"))
            (tables w)
    text_refused text nul =
        run_err (with_text text (query_row rows)) w up (rw (nul, with_text) refl)

    pub query_some :
        {r : R}
        → head? (rows (tables w)) ≡ some r
        → Gives (run (query_row rows)) w (ok r) (tables w)
    query_some h = run_ok (query_row rows) w up (ground arith)

    pub query_none :
        head? (rows (tables w)) ≡ none → Gives (run (query_row rows)) w (err no_rows) (tables w)
    query_none h = run_err (query_row rows) w up (ground arith)

  module _ {A B : Type 0} (m : Action World A) (f : A → Action World B) (w : World) where
    pub bind_Gives :
        {a : A} {t t' : Tables} {r : Result B}
        → Gives m w (ok a) t
        → Gives (f a) (m w).1 r t'
        → Gives (m >>= f) w r t'
    bind_Gives {t'} {r} c d =
        let e = bind_ok m f w c.result in
        record {
          result = ap (λ x. x.0) e ∙ d.result;
          left = ap (λ x. tables x.1) e ∙ d.left;
          up = ap (λ x. healthy x.1) e ∙ d.up;
        }

    pub bind_Gives_err :
        {x : Error} {t : Tables} → Gives m w (err x) t → Gives (m >>= f) w (err x) t
    bind_Gives_err c =
        let e = bind_err m f w c.result in
        record {
          result = ap (λ x. x.0) e;
          left = ap (λ x. tables x.1) e ∙ c.left;
          up = ap (λ x. healthy x.1) e ∙ c.up;
        }

  module _ {A : Type 0} (m : Action World A) (w : World) where
    pub attempt-Gives : {r : Result A} {t : Tables} → Gives m w r t → Gives (attempt m) w (ok r) t
    unfolding attempt
    attempt-Gives c = record { result = ap ok c.result; left = c.left; up = c.up }

  module _ {A : Type 0} (w : World) (up : healthy w ≡ true) where
    pub pure-Gives : (a : A) → Gives (pure a) w (ok a) (tables w)
    pure-Gives a = record { result = refl; left = refl; up = up }

    pub fail-Gives : (x : Error) → Gives (fail {A = A} x) w (err x) (tables w)
    fail-Gives x = record { result = refl; left = refl; up = up }

  -- A value after a call.
  pub pure_after :
      {A B : Type 0} {m : Action World A} {w : World} {r : Result A} {t : Tables} (b : B)
      → Gives m w r t
      → Gives (pure b) (m w).1 (ok b) t
  pure_after b c = record { result = refl; left = c.left; up = c.up }

  -- The same call, its tables and its value written in another way, and a call that a test chose.
  pub moved :
      {A : Type 0} {m : Action World A} {w : World} {r : Result A} {t t' : Tables}
      → Gives m w r t
      → t ≡ t'
      → Gives m w r t'
  moved c same = record { result = c.result; left = c.left ∙ same; up = c.up }

  pub answered :
      {A : Type 0} {m : Action World A} {w : World} {r r' : Result A} {t : Tables}
      → Gives m w r t
      → r ≡ r'
      → Gives m w r' t
  answered c same = record { result = c.result ∙ same; left = c.left; up = c.up }

  pub then_Gives :
      {A : Type 0} (b : Bool) (m k : Action World A) {w : World} {r : Result A} {t : Tables}
      → b ≡ true
      → Gives m w r t
      → Gives (if b then m else k) w r t
  then_Gives true m k h c = c
  then_Gives false m k h c = cc

  pub else_Gives :
      {A : Type 0} (b : Bool) (m k : Action World A) {w : World} {r : Result A} {t : Tables}
      → b ≡ false
      → Gives k w r t
      → Gives (if b then m else k) w r t
  else_Gives true m k h c = cc
  else_Gives false m k h c = c

  -- A transaction whose function comes to a value commits it.
  pub begin_Gives :
      {A : Type 0} (f : Action World A) (w : World)
      → healthy w ≡ true
      → ((w₁ : World)
          → tables w₁ ≡ tables w
          → healthy w₁ ≡ true
          → (a : A) × (t : Tables) × Gives f w₁ (ok a) t)
      → (a : A) × (t : Tables) × Gives (begin_func f) w (ok a) t
  begin_Gives {A} f w up total =
      let (w₁, same, up₁, ended) = begin_healthy f w up in
      let (a, t, c) = total w₁ same up₁ in
      let done =
        subst (λ (r : Result A). Ended tables healthy (r, (f w₁).1) (tables w) (begin_func f w))
          c.result (ended c.up) in
      (a, t, record { result = done.0; left = done.1 ∙ c.left; up = done.2 })
