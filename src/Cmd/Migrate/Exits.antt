-- ===== src/Cmd/Migrate/Exits.antt =====
-- What the exit code of cmd/migrate/main.go says.
use mathlib.Core.Bool.{false, false≢true}
use rescuestream_api.Prelude.{
  sym, ◌∙◌, eq_iff, ◌≡◌, refl, ℕ, String, true, List, ◌∷◌, str_eq, Bool-cases, inl, inr,
}
use rescuestream_api.Errors.{Error, Result, ok, err}
use rescuestream_api.Database.Migrations.{MigrateLibrary}
use rescuestream_api.Database.Migrations.Balance.{Closed, migrations-Closed}
use rescuestream_api.Cmd.Migrate.{Exit, exit_with, database_url_or_default, run_command, main}

module _ {World : Type 0} (lib : MigrateLibrary World) (format : ℕ → String)
    (show : Error → String) where
  open lib use {open_instances, is_current}

  -- No instance is left, and with the code 0 what a success establishes holds.
  abbrev pub Exited : (World → Type 0) → World → Exit × World → Type 0
  Exited Post w o = (open_instances o.1 ≡ open_instances w) × (o.0.code ≡ 0 → Post o.1)

  exit_with-Exited :
      {A : Type 0} (P Q : World → Type 0) (line : A → String) (text : String) (w v : World)
      (r : Result A)
      → ((u : World) → P u → Q u)
      → Closed lib (λ _. P) w (r, v)
      → Exited Q w (exit_with lib format show line text (r, v))
  exit_with-Exited P Q line text w v (ok a) imp (same, post) = (same, λ _. imp v post)
  exit_with-Exited P Q line text w v (err e) imp same = (same, λ h. cc)

  -- What a success of a command establishes.
  abbrev pub Done : String → World → Type 0
  Done command w = command ≡ "up" → is_current w ≡ true

  -- A command that is not `up` has nothing to establish.
  other-Done :
      (command : String) → str_eq command "up" ≡ false → (v : World) → Unit {0} → Done command v
  other-Done command other v u same = absurd (false≢true (sym other ∙ (eq_iff command "up").1 same))

  run_command-Exited :
      (url command : String) (w : World)
      → Exited (Done command) w (run_command lib format show url command w)
  unfolding run_command
  run_command-Exited url command w =
      let (ups, downs, versions) = migrations-Closed lib url w in
      elim (Bool-cases (str_eq command "up")) [
        | inl up ↦ rw up (
            exit_with-Exited (λ v. is_current v ≡ true) (Done command) _ _ w _ _
              (λ v current _. current) ups)
        | inr other ↦
            let nothing = other-Done command other in
            rw other (elim (Bool-cases (str_eq command "down")) [
              | inl down ↦
                  rw down (exit_with-Exited (λ _. Unit {0}) (Done command) _ _ w _ _ nothing downs)
              | inr neither ↦ rw neither (elim (Bool-cases (str_eq command "version")) [
                | inl version ↦
                    rw version
                      (exit_with-Exited (λ _. Unit {0}) (Done command) _ _ w _ _ nothing versions)
                | inr unknown ↦ rw unknown (refl, λ h. cc)
              ])
            ])
      ]

  -- Whatever the arguments are, the program leaves no instance of golang-migrate open, and when it
  -- exits with 0 after the command `up` the schema is the newest.
  pub main-Exited :
      (program command : String) (args : List String) (url : String) (w : World)
      → Exited (Done command) w (main lib format show (program ∷ command ∷ args) url w)
  unfolding main
  main-Exited program command args url w =
      run_command-Exited (database_url_or_default url) command w
