-- ===== src/Cmd/Start.antt =====
-- cmd/rescuestream-api/main.go: the parts are made one after another, the server runs until a
-- signal, and the deferred calls run if `main` returns; `os.Exit` runs none of them.
pub mod Ready
pub mod Returned
use rescuestream_api.Prelude.{ℤ, String, Bool, List, [], ◌∷◌, str_eq, if◌then◌else◌}
use rescuestream_api.Errors.{Error, Result, ok, err, Action, lift, pure, ◌>>=◌, ◌>>◌}
use rescuestream_api.Logging.{log_level_to_slog_level}
use rescuestream_api.Config.{Config, EnvField, new_config}
use rescuestream_api.Database.Pool.{PoolLibrary, with_tracing, new_pool}
use rescuestream_api.Database.Migrations.{MigrateLibrary, run_migrations}
use rescuestream_api.Server.{Listened, start_result}
use rescuestream_api.Service.MediaMtx.Client.{HttpClient, MediaMtxClient, new_media_mtx_client}

pub data ExporterType : Type 0 where
  prometheus otlp_grpc : ExporterType

-- The arguments of `ootel.NewMetricConfig` and `ootel.NewTraceConfig`.
pub record TelemetryConfig : Type 0 where
  pub metrics_enabled : Bool
  pub exporter_type : ExporterType
  pub metrics_port : ℤ
  pub tracing_enabled : Bool
  pub sample_rate : String
  pub service : String
  pub version : String

abbrev pub telemetry_config : Config → TelemetryConfig
telemetry_config c = record {
  metrics_enabled = c.metrics_enabled;
  exporter_type = if c.local then otlp_grpc else prometheus;
  metrics_port = c.metrics_port;
  tracing_enabled = c.tracing_enabled;
  sample_rate = c.tracing_sample_rate;
  service = c.tracing_service;
  version = c.tracing_version;
}

-- What ends the wait of `main`: a signal, or the return of `ListenAndServe` in the goroutine.
pub data Wakeup : Type 0 where
  signalled : Wakeup
  listened : Listened → Wakeup

-- How the process ends: with `os.Exit(1)` or `log.Fatalf`, or when `main` returns.
pub data Ended : Type 0 where
  exited : Error → Ended
  returned : Ended

-- The two libraries on one world, the calls of the others, and the environment.
pub record StartCalls (World : Type 0) : Type 1 where
  pub pools : PoolLibrary World
  pub migrations : MigrateLibrary World
  pub Telemetry : Type 0
  pub Generated : Type 0
  pub to_lower : String → String
  pub log_level : String
  pub parse_env : List EnvField → Result Config
  pub init_telemetry : TelemetryConfig → Action World Telemetry
  pub shutdown_telemetry : Telemetry → Action World (Unit {0})
  pub start_runtime : Action World (Unit {0})
  pub start_host : Action World (Unit {0})
  pub new_client : String → HttpClient → Action World Generated
  -- The server with its handlers listens on a port until something wakes `main`.
  pub serve_until : Config → pools.Pool → MediaMtxClient Generated → World → Wakeup × World
  -- The wait for a signal if the server has ended before.
  pub await_signal : World → World
  pub shutdown_server : Action World (Unit {0})

module _ {World : Type 0} (lib : StartCalls World) where
  open lib use {
    pools, migrations, Telemetry, Generated, to_lower, log_level, parse_env, init_telemetry,
    shutdown_telemetry, start_runtime, start_host, new_client, serve_until, await_signal,
    shutdown_server,
  }

  -- What is there when the server is started.
  pub record Running : Type 0 where
    pub config : Config
    pub telemetry : Telemetry
    pub pool : pools.Pool
    pub client : MediaMtxClient Generated

  -- `if logLevel == "" { logLevel = "error" }`
  abbrev pub level_or_default : String → String
  level_or_default level = if str_eq level "" then "error" else level

  -- From the configuration on, up to the server; an error ends the process.
  unfoldable pub start_with : Config → Action World Running
  start_with c = do
    telemetry ← init_telemetry (telemetry_config c)
    start_runtime
    start_host
    run_migrations migrations c.database_url
    pool ← new_pool pools c.database_url (with_tracing c.tracing_enabled ∷ [])
    client ← new_media_mtx_client new_client c.mediamtx_api_url c.mediamtx_public_url []
    pure (record { config = c; telemetry = telemetry; pool = pool; client = client })

  unfoldable pub start : Action World Running
  start = do
    level ← lift (log_level_to_slog_level to_lower (level_or_default log_level))
    c ← lift (new_config parse_env)
    start_with c

  -- After the signal: the server is shut down, then the deferred calls run, the last first. Errors
  -- are only logged.
  unfoldable pub stop : Running → World → World
  stop r w =
      let (_, w₁) = shutdown_server w in
      let (_, w₂) = shutdown_telemetry r.telemetry (pools.close r.pool w₁) in w₂

  abbrev pub woken : Running → Wakeup × World → Ended × World
  woken r (signalled, w) = (returned, stop r w)
  woken r (listened l, w) = elim (start_result l) [
    | ok u ↦ (returned, stop r (await_signal w))
    | err e ↦ (exited e, w)
  ]

  abbrev pub started : Result Running × World → Ended × World
  started (ok r, w) = woken r (serve_until r.config r.pool r.client w)
  started (err e, w) = (exited e, w)

  -- `main`
  unfoldable pub main : World → Ended × World
  main w = started (start w)
