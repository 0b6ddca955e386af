-- ===== src/Database/Migrations.antt =====
-- internal/database/migrate.go. golang-migrate is a parameter.
pub mod Balance
use rescuestream_api.Prelude.{
  ℤ, negsuc, ◌≡◌, ℕ, suc, String, Bool, true, Option, none, some, if◌then◌else◌,
}
use rescuestream_api.Errors.{Error, Result, ok, err, Action, wrapping, lift, wrap, ◌>>=◌}

-- What `m.Version()` returns: the version, whether it is dirty, and the error.
pub record Version : Type 0 where
  pub version : ℕ
  pub dirty : Bool
  pub error : Option Error

-- golang-migrate with the embedded files: an instance holds a connection until it is closed, once. After
-- `Up` succeeds or reports `ErrNoChange`, the schema is the newest; closing changes no schema.
pub record MigrateLibrary (World : Type 0) : Type 1 where
  pub Source : Type 0
  pub Migrate : Type 0
  pub new_source : Result Source
  pub new_with_source_instance : Source → String → Action World Migrate
  pub up : Migrate → Action World (Unit {0})
  pub steps : Migrate → ℤ → Action World (Unit {0})
  pub get_version : Migrate → World → Version × World
  pub close : Migrate → World → World
  -- `errors.Is(err, migrate.ErrNoChange)` and `errors.Is(err, migrate.ErrNilVersion)`
  pub is_no_change : Error → Bool
  pub is_nil_version : Error → Bool
  pub open_instances : World → ℕ
  pub is_open : World → Migrate → Bool
  pub is_current : World → Bool
  pub new_ok :
      (s : Source) (url : String) (w w' : World) (m : Migrate)
      → new_with_source_instance s url w ≡ (ok m, w')
      → open_instances w' ≡ suc (open_instances w)
  pub new_open :
      (s : Source) (url : String) (w w' : World) (m : Migrate)
      → new_with_source_instance s url w ≡ (ok m, w')
      → is_open w' m ≡ true
  pub new_err :
      (s : Source) (url : String) (w w' : World) (x : Error)
      → new_with_source_instance s url w ≡ (err x, w')
      → open_instances w' ≡ open_instances w
  pub up_lem : (m : Migrate) (w : World) → open_instances (up m w).1 ≡ open_instances w
  pub up_ok : (m : Migrate) (w w' : World) → up m w ≡ (ok tt, w') → is_current w' ≡ true
  pub up_no_change :
      (m : Migrate) (w w' : World) (x : Error)
      → up m w ≡ (err x, w')
      → is_no_change x ≡ true
      → is_current w' ≡ true
  pub steps_lem :
      (m : Migrate) (n : ℤ) (w : World) → open_instances (steps m n w).1 ≡ open_instances w
  pub version_lem :
      (m : Migrate) (w : World) → open_instances (get_version m w).1 ≡ open_instances w
  pub up_open : (m : Migrate) (w : World) → is_open (up m w).1 ≡ is_open w
  pub steps_open : (m : Migrate) (n : ℤ) (w : World) → is_open (steps m n w).1 ≡ is_open w
  pub version_open : (m : Migrate) (w : World) → is_open (get_version m w).1 ≡ is_open w
  pub close_lem :
      (m : Migrate) (w : World) (n : ℕ)
      → is_open w m ≡ true
      → open_instances w ≡ suc n
      → open_instances (close m w) ≡ n
  pub close_current : (m : Migrate) (w : World) → is_current (close m w) ≡ is_current w

-- `err != nil && !errors.Is(err, …)`: an error that is not to be ignored.
abbrev pub unless : {A : Type 0} → (Error → Bool) → A → String → Error → Result A
unless ignored a text x = if ignored x then ok a else err (wrap text x)

module _ {World : Type 0} (lib : MigrateLibrary World) where
  open lib use {
    Migrate, new_source, new_with_source_instance, up, steps, get_version, close, is_no_change,
    is_nil_version,
  }

  -- `defer func() { _, _ = m.Close() }()` around what a function does with its instance.
  unfoldable pub closing : {A : Type 0} → Migrate → Action World A → Action World A
  closing m body w = let (r, w') = body w in (r, close m w')

  -- What the three functions do first: the source and the instance.
  unfoldable pub with_migrate : {A : Type 0} → String → (Migrate → Action World A) → Action World A
  with_migrate url body = do
    source ← wrapping "failed to create migration source" (lift new_source)
    m ← wrapping "failed to create migrate instance" (new_with_source_instance source url)
    closing m (body m)

  unfoldable pub ignoring :
      (Error → Bool) → String → Action World (Unit {0}) → Action World (Unit {0})
  ignoring ignored text m w =
      let (r, w') = m w in (elim r [ ok _ ↦ ok tt | err x ↦ unless ignored tt text x ], w')

  unfoldable pub run_migrations : String → Action World (Unit {0})
  run_migrations url =
      with_migrate url (λ m. ignoring is_no_change "failed to run migrations" (up m))

  unfoldable pub rollback_migrations : String → Action World (Unit {0})
  rollback_migrations url =
      with_migrate url
        (λ m. ignoring is_no_change "failed to rollback migration" (steps m (negsuc 0)))

  -- The version and whether it is dirty, or the error.
  abbrev pub read_version : Version → Result (ℕ × Bool)
  read_version v = elim v.error [
    | none ↦ ok (v.version, v.dirty)
    | some x ↦ unless is_nil_version (v.version, v.dirty) "failed to get migration version" x
  ]

  unfoldable pub migration_version : String → Action World (ℕ × Bool)
  migration_version url =
      with_migrate url (λ m w. let (v, w') = get_version m w in (read_version v, w'))
