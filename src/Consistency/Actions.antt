-- ===== src/Consistency/Actions.antt =====
-- Calls that keep a predicate on the tables, whatever fails on the way: statements, and the ways to
-- join them.
use rescuestream_api.Prelude.{◌≡◌, refl, sym, subst, Bool, true, false, if◌then◌else◌}
use rescuestream_api.Errors.{Error, Result, ok, err, Action, pure, lift, attempt, handle, ◌>>=◌}
use rescuestream_api.Store.{Tables, Stmt}
use rescuestream_api.Store.Invariant.{Preserves}
use rescuestream_api.Env.{Env, Ran, Committed}

Ran-keeps :
    {A : Type 0} (I : Tables → Type 0) (s : Stmt A) (t t' : Tables) (r : Result A)
    → ((a : A) (t' : Tables) → s t ≡ ok (a, t') → I t')
    → Ran s t r t'
    → I t
    → I t'
Ran-keeps I s t t' (ok a) keep ran c = keep a t' ran
Ran-keeps I s t t' (err e) keep ran c = subst I (sym ran.0) c

module _ (e : Env) (I : Tables → Type 0) where
  open e use {World, tables, healthy, run, run_lem, begin_func, begin_lem}

  abbrev pub Keeps : {A : Type 0} → Action World A → Type 0
  Keeps m = (w : World) → I (tables w) → I (tables (m w).1)

  module _ {A : Type 0} where
    pub run-Keeps : (s : Stmt A) → Preserves I s → Keeps (run s)
    run-Keeps s keep w c =
        Ran-keeps I s (tables w) _ _ (λ a t' h. keep (tables w) a t' c h) (run_lem s w) c

    -- A statement at the tables at hand.
    pub run-Keeps_at :
        (s : Stmt A) (w : World)
        → ((a : A) (t' : Tables) → s (tables w) ≡ ok (a, t') → I t')
        → I (tables w)
        → I (tables (run s w).1)
    run-Keeps_at s w keep = Ran-keeps I s (tables w) _ _ keep (run_lem s w)

    pub pure-Keeps : (a : A) → Keeps (pure a)
    pure-Keeps a w c = c

    pub lift-Keeps : (r : Result A) → Keeps (lift r)
    lift-Keeps r w c = c

    pub attempt-Keeps : (m : Action World A) → Keeps m → Keeps (attempt m)
    unfolding attempt
    attempt-Keeps m keep = keep

    pub if-Keeps :
        (b : Bool) (m k : Action World A) → Keeps m → Keeps k → Keeps (if b then m else k)
    if-Keeps true m k keep_m keep_k = keep_m
    if-Keeps false m k keep_m keep_k = keep_k

    pub if-Keeps_at :
        (b : Bool) (m k : Action World A) (w : World)
        → I (tables (m w).1)
        → I (tables (k w).1)
        → I (tables ((if b then m else k) w).1)
    if-Keeps_at true m k w keep_m keep_k = keep_m
    if-Keeps_at false m k w keep_m keep_k = keep_k

    Committed-keeps :
        (f : Action World A) (t : Tables) (r : Result A × World)
        → Keeps f
        → Committed tables healthy f t r
        → I t
        → I (tables r.1)
    Committed-keeps f t (ok a, w') keep (w₁, w₂, begun, ran, left) c =
        subst I (sym left)
          (subst (λ (r : Result A × World). I (tables r.1)) ran (keep w₁ (subst I (sym begun) c)))
    Committed-keeps f t (err x, w') keep same c = subst I (sym same) c

    pub begin-Keeps : (f : Action World A) → Keeps f → Keeps (begin_func f)
    begin-Keeps f keep w = Committed-keeps f (tables w) (begin_func f w) keep (begin_lem f w)

  module _ {A B : Type 0} where
    pub handle-Keeps :
        (f : A → Result B) (g : Error → Error) (m : Action World A) → Keeps m → Keeps (handle f g m)
    unfolding handle
    handle-Keeps f g m keep = keep

    -- The same at one world, where what `m` leaves is known.
    pub >>=-Keeps_at :
        (m : Action World A) (f : A → Action World B) (w : World)
        → I (tables (m w).1)
        → ((a : A) → (m w).0 ≡ ok a → I (tables (f a (m w).1).1))
        → I (tables ((m >>= f) w).1)
    unfolding ◌>>=◌
    >>=-Keeps_at m f w c later = after (m w).0 (m w).1 c later
      where
        after :
            (r : Result A) (w' : World)
            → I (tables w')
            → ((a : A) → r ≡ ok a → I (tables (f a w').1))
            → I (
                tables
                  (elim r as (λ _. Result B × World) [ ok a ↦ f a w' | err x ↦ (err x, w') ]).1)
        after (ok a) w' c' h = h a refl
        after (err x) w' c' h = c'

    pub >>=-Keeps :
        (m : Action World A) (f : A → Action World B)
        → Keeps m
        → ((a : A) → Keeps (f a))
        → Keeps (m >>= f)
    >>=-Keeps m f keep later w c = >>=-Keeps_at m f w (keep w c) (λ a _. later a _ (keep w c))
