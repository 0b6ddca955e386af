-- ===== src/Handler/Streams.antt =====
-- internal/handler/stream.go. `uuid.Parse` is a parameter.
pub mod Answers
use rescuestream_api.Prelude.{ℕ, String, Option, none, some, List, length, str_eq, if◌then◌else◌}
use rescuestream_api.Domain.{Uuid, StreamWithUrls}
use rescuestream_api.Env.{Env}
use rescuestream_api.Service.Streams as Service
use rescuestream_api.Handler.Http.{
  Method, get, Response, json, err_invalid_request, err_internal_server, map_domain_error, respond,
  refuse,
}

-- `StreamListResponse`, or one stream.
pub data StreamPayload : Type 0 where
  streams : List StreamWithUrls → ℕ → StreamPayload
  stream : StreamWithUrls → StreamPayload

module _ (e : Env) (public_url : String) (parse_uuid : String → Option Uuid) where
  open e use {World}

  unfoldable pub list_streams : World → Response StreamPayload × World
  list_streams =
      respond (λ ss. json 200 (streams ss (length ss)))
        (λ x. err_internal_server "failed to list streams") (Service.list_active e public_url)

  unfoldable pub get_stream : String → World → Response StreamPayload × World
  get_stream id = elim (parse_uuid id) [
    | none ↦ refuse (err_invalid_request "invalid stream ID")
    | some u ↦
        respond (λ s. json 200 (stream s)) map_domain_error (Service.get_by_id e public_url u)
  ]

  -- `StreamHandler.ServeHTTP`
  unfoldable pub serve_http : Method → String → World → Response StreamPayload × World
  serve_http get id = if str_eq id "" then list_streams else get_stream id
  serve_http _ id = refuse (err_invalid_request "method not allowed")
