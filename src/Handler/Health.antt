-- ===== src/Handler/Health.antt =====
-- internal/handler/health.go
use rescuestream_api.Prelude.{String}
use rescuestream_api.Errors.{ok, err}
use rescuestream_api.Env.{Env}
use rescuestream_api.Handler.Http.{Method, get, Response, json, err_invalid_request, refuse}

pub record HealthResponse : Type 0 where
  pub status : String
  pub database : String

abbrev pub healthy_response : HealthResponse
healthy_response = record { status = "ok"; database = "ok" }

abbrev pub degraded_response : HealthResponse
degraded_response = record { status = "degraded"; database = "unreachable" }

module _ (e : Env) where
  open e use {World, ping}

  -- `HealthHandler.ServeHTTP`
  unfoldable pub serve_http : Method → World → Response HealthResponse × World
  serve_http get w =
      let (r, w') = ping w in
      elim r [ ok _ ↦ (json 200 healthy_response, w') | err x ↦ (json 503 degraded_response, w') ]
  serve_http _ w = refuse (err_invalid_request "method not allowed") w
