-- ===== src/Tests/Start.antt =====
-- The two programs of cmd on a small world.
use rescuestream_api.Prelude.{
  if◌then◌else◌, pos, ◌≡◌, refl, sym, ap, ℕ, suc, ◌-◌, Bool, true, false, [], ◌∷◌, none, arith,
  zero,
}
use rescuestream_api.Errors.{Result, ok, err, pure, ◌>>=◌, handle, attempt, external}
use rescuestream_api.Logging.{log_level_to_slog_level}
use rescuestream_api.Config.{Config, new_config}
use rescuestream_api.Database.Pool.{
  PoolLibrary, PoolConfig, new_pool, pinged, apply_pool_options, configured, default_options,
  with_tracing, with_max_conns,
}
use rescuestream_api.Database.Pool.Balance.{Balanced, new_pool-Balanced}
use rescuestream_api.Database.Migrations.{
  MigrateLibrary, run_migrations, rollback_migrations, migration_version, with_migrate, closing,
  ignoring,
}
use rescuestream_api.Database.Migrations.Balance.{Closed, migrations-Closed}
use rescuestream_api.Service.MediaMtx.Client.{
  new_media_mtx_client, apply_media_mtx_options, default_media_mtx_options, with_timeout,
}
use rescuestream_api.Cmd.Migrate as Migrate
use rescuestream_api.Cmd.Migrate.Exits.{Done, Exited, main-Exited}
use rescuestream_api.Cmd.Start.{StartCalls, signalled, returned, start, start_with, stop, main}
use rescuestream_api.Cmd.Start.Ready.{AreApart, Ready, start-Ready}
use rescuestream_api.Cmd.Start.Returned.{Left, main-Left}

record Machine : Type 0 where
  open_pools : ℕ
  open_instances : ℕ
  newest : Bool

abbrev fresh : Machine
fresh = record { open_pools = 0; open_instances = 0; newest = false }

abbrev pool_config : PoolConfig (Unit {0})
pool_config = record {
  rest = tt;
  min_conns = pos 0;
  max_conns = pos 4;
  max_conn_lifetime = pos 0;
  max_conn_idle_time = pos 0;
  health_check_period = pos 0;
  tracer = false;
}

abbrev is_positive : ℕ → Bool
is_positive zero = false
is_positive (suc n) = true

-- A database that answers or not.
abbrev pool_library : Bool → PoolLibrary Machine
pool_library up = record {
  Rest = Unit;
  Pool = Unit;
  parse_config = λ s. ok pool_config;
  new_with_config = λ c m. (ok tt, record m { open_pools = suc m.open_pools });
  ping = λ p m. (if up then ok tt else err (external "unreachable"), m);
  close = λ p m. record m { open_pools = m.open_pools - 1 };
  open_pools = λ m. m.open_pools;
  is_open = λ m p. is_positive m.open_pools;
  new_ok = λ c w w' p h. ap (λ (r : Result (Unit {0}) × Machine). r.1.open_pools) (sym h);
  new_err = λ c w w' x h. cc;
  ping_lem = λ p w. refl;
  new_open =
      λ c w w' p h. ap (λ (r : Result (Unit {0}) × Machine). is_positive r.1.open_pools) (sym h);
  ping_open = λ p w. refl;
  close_lem = λ p w n opened h. omega arith;
}

abbrev migrate_library : MigrateLibrary Machine
migrate_library = record {
  Source = Unit;
  Migrate = Unit;
  new_source = ok tt;
  new_with_source_instance = λ s url m. (ok tt, record m { open_instances = suc m.open_instances });
  up = λ i m. (ok tt, record m { newest = true });
  steps = λ i n m. (ok tt, record m { newest = false });
  get_version = λ i m. (record { version = 1; dirty = false; error = none }, m);
  close = λ i m. record m { open_instances = m.open_instances - 1 };
  is_no_change = λ x. false;
  is_nil_version = λ x. false;
  open_instances = λ m. m.open_instances;
  is_open = λ m i. is_positive m.open_instances;
  is_current = λ m. m.newest;
  new_ok = λ s u w w' i h. ap (λ (r : Result (Unit {0}) × Machine). r.1.open_instances) (sym h);
  new_err = λ s u w w' x h. cc;
  up_lem = λ i w. refl;
  up_ok = λ i w w' h. ap (λ (r : Result (Unit {0}) × Machine). r.1.newest) (sym h);
  up_no_change = λ i w w' x h ignored. cc;
  steps_lem = λ i n w. refl;
  version_lem = λ i w. refl;
  new_open = λ s u w w' i h.
      ap (λ (r : Result (Unit {0}) × Machine). is_positive r.1.open_instances) (sym h);
  up_open = λ i w. refl;
  steps_open = λ i n w. refl;
  version_open = λ i w. refl;
  close_lem = λ i w n opened h. omega arith;
  close_current = λ i w. refl;
}

abbrev config : Config
config = record {
  log_level = "error";
  metrics_enabled = true;
  metrics_port = pos 8081;
  local = false;
  tracing_enabled = false;
  tracing_sample_rate = "0.01";
  tracing_service = "rescuestream-api";
  tracing_version = "";
  database_url = "postgres://db";
  api_port = pos 8080;
  api_secret = "s3cret";
  mediamtx_api_url = "http://localhost:9997";
  mediamtx_public_url = "http://localhost:8889";
}

abbrev calls : StartCalls Machine
calls = record {
  pools = pool_library true;
  migrations = migrate_library;
  Telemetry = Unit;
  Generated = Unit;
  to_lower = λ s. s;
  log_level = "info";
  parse_env = λ fields. ok config;
  init_telemetry = λ c. pure tt;
  shutdown_telemetry = λ t. pure tt;
  start_runtime = pure tt;
  start_host = pure tt;
  new_client = λ url h. pure tt;
  serve_until = λ c p m w. (signalled, w);
  await_signal = λ w. w;
  shutdown_server = pure tt;
}

calls-AreApart : AreApart calls
calls-AreApart = record {
  pool_stays_client = λ url c w. refl;
  pool_stays_served = λ c p m w. refl;
  pool_stays_awaited = λ w. refl;
  pool_stays_shut = λ w. refl;
  pool_made = λ c w. (refl, refl);
  pool_pinged = λ p w. (refl, refl);
  pool_closed = λ p w. (refl, refl);
  instance_made = λ s url w. refl;
  migrated_up = λ m w. refl;
  instance_closed = λ m w. refl;
  telemetry_made = λ c w. (refl, refl, refl);
  telemetry_shut = λ t w. (refl, refl, refl);
  runtime_started = λ w. (refl, refl, refl);
  host_started = λ w. (refl, refl, refl);
  client_made = λ url h w. (refl, refl, refl);
  served = λ c p m w. (refl, refl, refl);
  signal_awaited = λ w. (refl, refl, refl);
  server_shut = λ w. (refl, refl, refl);
}

program : Unit {0}
unfolding main start start_with stop new_config log_level_to_slog_level run_migrations with_migrate
    closing ignoring new_pool pinged new_media_mtx_client ◌>>=◌ handle attempt Migrate.main
    Migrate.run_command migration_version rollback_migrations apply_pool_options configured
    default_options with_tracing with_max_conns apply_media_mtx_options default_media_mtx_options
    with_timeout
program = tt

-- The process ends well, with the schema migrated and everything closed.
whole_run :
    main calls fresh ≡ (returned, record { open_pools = 0; open_instances = 0; newest = true })
unfolding program
whole_run = refl

version_printed :
    (Migrate.main migrate_library
      (λ n. "1")
      (λ e. "")
      ("migrate" ∷ "version" ∷ [])
      ""
      fresh).0.printed
    ≡ "Version: 1\n" ∷ []
unfolding program
version_printed = refl

-- The last option given counts, and the timeout of the options is not the client's.
options_applied :
    ((configured
        (apply_pool_options (with_max_conns (pos 8) ∷ with_max_conns (pos 9) ∷ []) default_options)
        pool_config).max_conns
      ≡ pos 9)
    × ((apply_media_mtx_options
          (with_timeout (pos 5) ∷ [])
          default_media_mtx_options).http_client.timeout
        ≡ pos 10000000000)
unfolding program
options_applied = (refl, refl)

-- The ping fails, and the pool is closed.
new_pool-Balanced_example :
    Balanced (pool_library false) fresh (new_pool (pool_library false) "postgres://db" [] fresh)
new_pool-Balanced_example = new_pool-Balanced (pool_library false) "postgres://db" [] fresh

migrations-Closed_example :
    Closed migrate_library
      (λ _ v. v.newest ≡ true)
      fresh
      (run_migrations migrate_library "postgres://db" fresh)
    × Closed migrate_library
        (λ _ _. Unit {0})
        fresh
        (rollback_migrations migrate_library "postgres://db" fresh)
    × Closed migrate_library
        (λ _ _. Unit {0})
        fresh
        (migration_version migrate_library "postgres://db" fresh)
migrations-Closed_example = migrations-Closed migrate_library "postgres://db" fresh

main-Exited_example :
    Exited migrate_library
      (λ n. "1")
      (λ e. "")
      (Done migrate_library (λ n. "1") (λ e. "") "up")
      fresh
      (Migrate.main migrate_library (λ n. "1") (λ e. "") ("migrate" ∷ "up" ∷ []) "" fresh)
main-Exited_example = main-Exited migrate_library (λ n. "1") (λ e. "") "migrate" "up" [] "" fresh

start-Ready_example : Ready calls calls-AreApart fresh (start calls fresh)
start-Ready_example = start-Ready calls calls-AreApart fresh

main-Left_example : Left calls calls-AreApart fresh (main calls fresh)
main-Left_example = main-Left calls calls-AreApart fresh
