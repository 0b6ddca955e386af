-- ===== src/Handler/Auth.antt =====
-- internal/handler/auth.go
pub mod Answers
use rescuestream_api.Prelude.{Option, none, some, if◌then◌else◌}
use rescuestream_api.Domain.{Time}
use rescuestream_api.Errors.{ok, err}
use rescuestream_api.Env.{Env}
use rescuestream_api.Service.Auth.{AuthRequest, authenticate}
use rescuestream_api.Handler.Http.{
  Method, post, Response, header, problem, err_invalid_request, err_internal_server,
}

module _ (e : Env) (now db_now : Time) where
  open e use {World}

  -- `AuthHandler.ServeHTTP`
  unfoldable pub serve_http : Method → Option AuthRequest → World → Response (Unit {0}) × World
  serve_http post (some req) w =
      let (r, w') = authenticate e now db_now req w in
      elim r [
        | ok result ↦ (header (if result.allowed then 200 else 401), w')
        | err x ↦ (problem (err_internal_server "authentication failed"), w')
      ]
  serve_http post none w = (problem (err_invalid_request "invalid request body"), w)
  serve_http _ body w = (problem (err_invalid_request "method not allowed"), w)
