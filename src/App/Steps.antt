-- ===== src/App/Steps.antt =====
-- What each handler's request does to the tables, as steps of Consistency.Reach: internal/handler.
use mathlib.Core.Bool.{false≢true}
use rescuestream_api.Prelude.{
  ◌≡◌, ◌⊎◌, inl, inr, refl, Bool, true, false, Option, none, some, if◌then◌else◌,
}
use rescuestream_api.Errors.{Result, ok, err, Error, Action}
use rescuestream_api.Store.{Tables}
use rescuestream_api.Env.{Env}
use rescuestream_api.Handler.Http.{Response}
use rescuestream_api.Consistency.Actions.{Keeps}
use rescuestream_api.Consistency.Reach.{
  Step, auth, ready, not_ready, create_key, revoke_key, create_broadcaster, update_broadcaster,
  drop_broadcaster, quiet, Reach, here, next,
}

-- The steps that MediaMTX may ask for without a signature.
abbrev pub IsPublic : {e : Env} {w w' : e.World} → Step e w w' → Type 0
IsPublic (auth now db_now req w) = Unit {0}
IsPublic (ready fresh spare now body w) = Unit {0}
IsPublic (not_ready now body w) = Unit {0}
IsPublic (quiet w w' same) = Unit {0}
IsPublic (create_key fresh spare now random req w) = ⊥
IsPublic (revoke_key now db_now id w) = ⊥
IsPublic (create_broadcaster fresh spare created updated req w) = ⊥
IsPublic (update_broadcaster now id req w) = ⊥
IsPublic (drop_broadcaster id w) = ⊥

-- Every step is public, or the request is trusted.
abbrev pub Within : {e : Env} {w w' : e.World} → Bool → Reach e w w' → Type 0
Within trusted here = Unit {0}
Within trusted (next r s) = Within trusted r × (IsPublic s ⊎ (trusted ≡ true))

pub Within-widen :
    (e : Env) (b : Bool) {w w' : e.World} (r : Reach e w w') → Within false r → Within b r
Within-widen e b here bound = tt
Within-widen e b (next r s) (bound, inl public) = (Within-widen e b r bound, inl public)
Within-widen e b (next r s) (bound, inr h) = absurd (false≢true h)

module _ (e : Env) (trusted : Bool) where
  open e use {World, tables}

  -- The call does what a run within the bounds does.
  abbrev pub Leads : {A : Type 0} → (World → A × World) → Type 0
  Leads f = (w : World) → (r : Reach e w (f w).1) × Within trusted r

  pub one_step :
      {w w' : World} (s : Step e w w')
      → IsPublic s ⊎ (trusted ≡ true)
      → (r : Reach e w w') × Within trusted r
  one_step s bound = (next here s, (tt, bound))

  pub same-Leads :
      {A : Type 0} (f : World → A × World) → ((w : World) → tables (f w).1 ≡ tables w) → Leads f
  same-Leads f same w = one_step (quiet w (f w).1 (same w)) (inl tt)

  -- A read keeps every predicate on the tables.
  pub read-Leads :
      {A : Type 0} (m : Action World A) → ((t : Tables) → Keeps e (λ u. u ≡ t) m) → Leads m
  read-Leads m keep = same-Leads m (λ w. keep (tables w) w refl)

  pub if-Leads :
      {A : Type 0} (b : Bool) (f g : World → A × World)
      → Leads f
      → Leads g
      → Leads (if b then f else g)
  if-Leads true f g lead_f lead_g = lead_f
  if-Leads false f g lead_f lead_g = lead_g

  module _ {P : Type 0} where
    pub option-Leads :
        {U : Type 0} (o : Option U) (f : World → Response P × World)
        (g : U → World → Response P × World)
        → Leads f
        → ((u : U) → Leads (g u))
        → Leads (elim o as (λ _. World → Response P × World) [ none ↦ f | some u ↦ g u ])
    option-Leads none f g lead_f lead_g = lead_f
    option-Leads (some u) f g lead_f lead_g = lead_g u

    -- A handler that answers after a call, whatever the call returned.
    pub answer-Leads :
        {A : Type 0} (f : A → Response P) (g : Error → Response P) (m : Action World A)
        → Leads m
        → Leads (λ w.
          let (r, w') = m w in
          elim r as (λ _. Response P × World) [ ok a ↦ (f a, w') | err x ↦ (g x, w') ])
    answer-Leads {A = A} f g m lead w = after (m w).0 (m w).1 (lead w)
      where
        after :
            (r : Result A) (w' : World)
            → ((run : Reach e w w') × Within trusted run)
            → (run : Reach e w
                (elim r as (λ _. Response P × World) [ ok a ↦ (f a, w') | err x ↦ (g x, w') ]).1)
              × Within trusted run
        after (ok a) w' led = led
        after (err x) w' led = led
