-- ===== src/Database/Migrations/Balance.antt =====
-- What the functions of internal/database/migrate.go leave: no instance open, and after a success of
-- `RunMigrations` the newest schema.
use rescuestream_api.Prelude.{
  ◌≡◌, refl, sym, ap, ◌∙◌, ℕ, suc, String, Bool, true, Bool-cases, inl, inr, negsuc,
}
use rescuestream_api.Errors.{Result, ok, err, Action, lift}
use rescuestream_api.Errors.Cases.{Framed, bind-Framed, wrapping-Framed, wrapping-bind_cases}
use rescuestream_api.Database.Migrations.{
  MigrateLibrary, closing, with_migrate, ignoring, unless, run_migrations, rollback_migrations,
  migration_version,
}

module _ {World : Type 0} (lib : MigrateLibrary World) where
  open lib use {
    Source, Migrate, new_source, new_with_source_instance, up, steps, get_version, close,
    is_no_change, open_instances, is_current, new_ok, new_err, up_lem, up_ok, up_no_change,
    steps_lem, version_lem, close_lem, close_current, is_open, new_open, up_open, steps_open,
    version_open,
  }

  -- Whatever the call answers, no more instances are open than before, and what holds after the body
  -- of a success and lasts when the instance is closed holds.
  abbrev pub Closed : {A : Type 0} → (A → World → Type 0) → World → Result A × World → Type 0
  Closed Post w (ok a, w') = (open_instances w' ≡ open_instances w) × Post a w'
  Closed Post w (err x, w') = open_instances w' ≡ open_instances w

  module _ {A : Type 0} (Post : A → World → Type 0)
      (lasts : (a : A) (m : Migrate) (w : World) → Post a w → Post a (close m w)) where
    Closed-after :
        (m : Migrate) (n : ℕ) (r : Result A) (w w' : World)
        → open_instances w ≡ n
        → open_instances w' ≡ suc n
        → is_open w' m ≡ true
        → ((a : A) → r ≡ ok a → Post a w')
        → Closed Post w (r, close m w')
    Closed-after m n (ok a) w w' before more opened post =
        (close_lem m w' n opened more ∙ sym before, lasts a m w' (post a refl))
    Closed-after m n (err x) w w' before more opened post =
        close_lem m w' n opened more ∙ sym before

    with_migrate-Closed :
        (url : String) (body : Migrate → Action World A) (w : World)
        → ((m : Migrate) (v : World) → open_instances (body m v).1 ≡ open_instances v)
        → ((m : Migrate) (v : World) → is_open (body m v).1 ≡ is_open v)
        → ((m : Migrate) (v : World) (a : A) → (body m v).0 ≡ ok a → Post a (body m v).1)
        → Closed Post w (with_migrate lib url body w)
    unfolding with_migrate closing
    with_migrate-Closed url body w same stays post =
        wrapping-bind_cases (Closed Post w) _ (lift new_source) _ w
          (λ s w₁ h.
            let start : open_instances w₁ ≡ open_instances w =
              ap (λ c. open_instances c.1) (sym h) in
            wrapping-bind_cases (Closed Post w) _ (new_with_source_instance s url) _ w₁
              (λ m w₂ made.
                Closed-after m (open_instances w) (body m w₂).0 w (body m w₂).1 refl
                  (same m w₂ ∙ new_ok s url w₁ w₂ m made ∙ ap suc start)
                  (ap (λ (o : Migrate → Bool). o m) (stays m w₂) ∙ new_open s url w₁ w₂ m made)
                  (λ a. post m w₂ a))
              (λ x w₂ failed. new_err s url w₁ w₂ x failed ∙ start))
          (λ x w₁ h. ap (λ c. open_instances c.1) (sym h))

  -- The newest schema, if `Up` succeeded or had nothing to do.
  up-current :
      (m : Migrate) (v : World) (u : Unit {0})
      → (ignoring lib is_no_change "failed to run migrations" (up m) v).0 ≡ ok u
      → is_current (ignoring lib is_no_change "failed to run migrations" (up m) v).1 ≡ true
  unfolding ignoring
  up-current m v u = by_answer (up m v).0 (up m v).1 refl
    where
      by_answer :
          (r : Result (Unit {0})) (v' : World)
          → up m v ≡ (r, v')
          → ◌≡◌ {A = Result (Unit {0})}
              (elim r as (λ _. Result (Unit {0})) [
                | ok _ ↦ ok tt
                | err x ↦ unless is_no_change tt "failed to run migrations" x
              ])
              (ok u)
          → is_current v' ≡ true
      by_answer (ok tt) v' h done = up_ok m v v' h
      by_answer (err x) v' h done = elim (Bool-cases (is_no_change x)) [
        | inl ignored ↦ up_no_change m v v' x h ignored
        | inr failed ↦ cc
      ]

  -- Whatever fails, none of the three functions leaves an instance open that was not open before,
  -- and the schema is the newest when `RunMigrations` has succeeded.
  pub migrations-Closed :
      (url : String) (w : World)
      → Closed (λ _ v. is_current v ≡ true) w (run_migrations lib url w)
        × Closed (λ _ _. Unit {0}) w (rollback_migrations lib url w)
        × Closed (λ _ _. Unit {0}) w (migration_version lib url w)
  unfolding run_migrations rollback_migrations migration_version ignoring
  migrations-Closed url w = (
    with_migrate-Closed (λ _ v. is_current v ≡ true) (λ a m v h. close_current m v ∙ h) url _ w
        up_lem up_open up-current,
    with_migrate-Closed (λ _ _. Unit {0}) (λ a m v h. tt) url _ w (λ m v. steps_lem m (negsuc 0) v)
        (λ m v. steps_open m (negsuc 0) v) (λ m v a h. tt),
    with_migrate-Closed (λ _ _. Unit {0}) (λ a m v h. tt) url _ w version_lem version_open
        (λ m v a h. tt),
  )

  -- What the library's calls keep of the world, `RunMigrations` keeps.
  pub run_migrations-Framed :
      {X : Type 0} (f : World → X) (url : String)
      → ((s : Source) (u : String) → Framed f (new_with_source_instance s u))
      → ((m : Migrate) → Framed f (up m))
      → ((m : Migrate) (w : World) → f (close m w) ≡ f w)
      → Framed f (run_migrations lib url)
  unfolding run_migrations with_migrate closing ignoring
  run_migrations-Framed f url made ups closed =
      bind-Framed f _ _ (wrapping-Framed f _ (lift new_source) (λ w. refl)) (λ s.
        bind-Framed f _ _ (wrapping-Framed f _ (new_with_source_instance s url) (made s url))
          (λ m w. closed m _ ∙ ups m w))
