-- ===== src/Database/Pool.antt =====
-- internal/database/database.go: the options of the connection pool, and `NewPool`.
pub mod Balance
use rescuestream_api.Prelude.{ℤ, pos, ◌≡◌, ℕ, suc, String, Bool, true, List, [], ◌∷◌, if◌then◌else◌}
use rescuestream_api.Errors.{Error, Result, ok, err, Action, wrapping, lift, attempt, wrap, ◌>>=◌}

-- A `time.Duration`, in nanoseconds.
abbrev pub Duration : Type 0
Duration = ℤ

pub record PoolOptions : Type 0 where
  pub min_conns : ℤ
  pub max_conns : ℤ
  pub max_conn_lifetime : Duration
  pub max_conn_idle_time : Duration
  pub health_check_period : Duration
  pub enable_tracing : Bool

unfoldable pub default_options : PoolOptions
default_options = record {
  min_conns = pos 5;
  max_conns = pos 25;
  max_conn_lifetime = pos 3600000000000;
  max_conn_idle_time = pos 1800000000000;
  health_check_period = pos 30000000000;
  enable_tracing = true;
}

-- `Option`
abbrev pub PoolOption : Type 0
PoolOption = PoolOptions → PoolOptions

unfoldable pub with_min_conns : ℤ → PoolOption
with_min_conns n o = record o { min_conns = n }

unfoldable pub with_max_conns : ℤ → PoolOption
with_max_conns n o = record o { max_conns = n }

unfoldable pub with_max_conn_lifetime : Duration → PoolOption
with_max_conn_lifetime d o = record o { max_conn_lifetime = d }

unfoldable pub with_max_conn_idle_time : Duration → PoolOption
with_max_conn_idle_time d o = record o { max_conn_idle_time = d }

unfoldable pub with_health_check_period : Duration → PoolOption
with_health_check_period d o = record o { health_check_period = d }

unfoldable pub with_tracing : Bool → PoolOption
with_tracing enabled o = record o { enable_tracing = enabled }

-- `for _, opt := range opts { opt(cfg) }`
unfoldable pub apply_pool_options : List PoolOption → PoolOption
apply_pool_options [] o = o
apply_pool_options (opt ∷ opts) o = apply_pool_options opts (opt o)

-- The fields of `pgxpool.Config` that the code sets; `Rest` is what else a connection string says.
pub record PoolConfig (Rest : Type 0) : Type 0 where
  pub rest : Rest
  pub min_conns : ℤ
  pub max_conns : ℤ
  pub max_conn_lifetime : Duration
  pub max_conn_idle_time : Duration
  pub health_check_period : Duration
  pub tracer : Bool

unfoldable pub configured : {Rest : Type 0} → PoolOptions → PoolConfig Rest → PoolConfig Rest
configured o c = record c {
  min_conns = o.min_conns;
  max_conns = o.max_conns;
  max_conn_lifetime = o.max_conn_lifetime;
  max_conn_idle_time = o.max_conn_idle_time;
  health_check_period = o.health_check_period;
  tracer = if o.enable_tracing then true else c.tracer;
}

-- pgxpool: a pool that is made is open until it is closed, once; a ping neither makes nor closes one.
pub record PoolLibrary (World : Type 0) : Type 1 where
  pub Rest : Type 0
  pub Pool : Type 0
  pub parse_config : String → Result (PoolConfig Rest)
  pub new_with_config : PoolConfig Rest → Action World Pool
  pub ping : Pool → Action World (Unit {0})
  pub close : Pool → World → World
  pub open_pools : World → ℕ
  pub is_open : World → Pool → Bool
  pub new_ok :
      (c : PoolConfig Rest) (w w' : World) (p : Pool)
      → new_with_config c w ≡ (ok p, w')
      → open_pools w' ≡ suc (open_pools w)
  pub new_open :
      (c : PoolConfig Rest) (w w' : World) (p : Pool)
      → new_with_config c w ≡ (ok p, w')
      → is_open w' p ≡ true
  pub new_err :
      (c : PoolConfig Rest) (w w' : World) (x : Error)
      → new_with_config c w ≡ (err x, w')
      → open_pools w' ≡ open_pools w
  pub ping_lem : (p : Pool) (w : World) → open_pools (ping p w).1 ≡ open_pools w
  pub ping_open : (p : Pool) (w : World) → is_open (ping p w).1 ≡ is_open w
  pub close_lem :
      (p : Pool) (w : World) (n : ℕ)
      → is_open w p ≡ true
      → open_pools w ≡ suc n
      → open_pools (close p w) ≡ n

module _ {World : Type 0} (lib : PoolLibrary World) where
  open lib use {Pool, Rest, parse_config, new_with_config, ping, close}

  -- From the ping of the pool that was made.
  unfoldable pub pinged : Pool → Result (Unit {0}) → Action World Pool
  pinged pool (ok _) w = (ok pool, w)
  pinged pool (err x) w = (err (wrap "failed to ping database" x), close pool w)

  unfoldable pub new_pool : String → List PoolOption → Action World Pool
  new_pool conn_string opts = do
    let cfg = apply_pool_options opts default_options
    parsed ← wrapping "failed to parse database config" (lift (parse_config conn_string))
    pool ← wrapping "failed to create connection pool" (new_with_config (configured cfg parsed))
    answer ← attempt (ping pool)
    pinged pool answer
