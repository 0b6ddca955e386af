-- ===== src/Handler/StreamKeys.antt =====
-- internal/handler/streamkey.go. `uuid.Parse` and `time.Parse` are parameters.
pub mod Hidden
pub mod Revocation
pub mod Creation
pub mod Listing
use rescuestream_api.Prelude.{ℕ, String, Option, none, some, List, length, str_eq, if◌then◌else◌}
use rescuestream_api.Domain.{Uuid, Time, StreamKey}
use rescuestream_api.Errors.{Result}
use rescuestream_api.Env.{Env}
use rescuestream_api.Service.StreamKeys as Service
use rescuestream_api.Handler.Http.{
  Method, get, post, delete, Response, header, json, err_invalid_request, err_internal_server,
  map_domain_error, respond, refuse,
}

pub record CreateStreamKeyRequest : Type 0 where
  pub broadcaster_id : String
  pub expires_at : Option String

-- `StreamKeyListResponse`, or one key.
pub data KeyPayload : Type 0 where
  keys : List StreamKey → ℕ → KeyPayload
  key : StreamKey → KeyPayload

-- What a request reads besides its own text: new UUIDs, the clocks and random bytes.
pub record KeyInputs : Type 0 where
  pub fresh : Uuid
  pub spare : Uuid
  pub now : Time
  pub db_now : Time
  pub random : Result (List ℕ)

-- `req.ExpiresAt`, parsed; the outer `none` is a text that cannot be parsed.
abbrev pub parse_expiry : (String → Option Time) → Option String → Option (Option Time)
parse_expiry parse_time none = some none
parse_expiry parse_time (some s) = elim (parse_time s) [ none ↦ none | some t ↦ some (some t) ]

module _ (e : Env) (parse_uuid : String → Option Uuid) (parse_time : String → Option Time) where
  open e use {World}

  unfoldable pub list_stream_keys : World → Response KeyPayload × World
  list_stream_keys =
      respond (λ ks. json 200 (keys ks (length ks)))
        (λ x. err_internal_server "failed to list stream keys") (Service.list e)

  -- `createStreamKey` from its parsed texts on.
  unfoldable pub create_parsed :
      KeyInputs → Option Uuid → Option (Option Time) → World → Response KeyPayload × World
  create_parsed i none expiry = refuse (err_invalid_request "invalid broadcaster_id")
  create_parsed i (some id) none =
      refuse (err_invalid_request "invalid expires_at format, use RFC3339")
  create_parsed i (some id) (some expiry) =
      respond (λ k. json 201 (key k)) map_domain_error
        (Service.create e i.fresh i.spare i.now i.random
          (record { broadcaster_id = id; expires_at = expiry }))

  unfoldable pub create_stream_key :
      KeyInputs → Option CreateStreamKeyRequest → World → Response KeyPayload × World
  create_stream_key i none = refuse (err_invalid_request "invalid request body")
  create_stream_key i (some req) =
      if str_eq req.broadcaster_id ""
      then refuse (err_invalid_request "broadcaster_id is required")
      else create_parsed i (parse_uuid req.broadcaster_id) (parse_expiry parse_time req.expires_at)

  unfoldable pub get_stream_key : String → World → Response KeyPayload × World
  get_stream_key id = elim (parse_uuid id) [
    | none ↦ refuse (err_invalid_request "invalid stream key ID")
    | some u ↦
        respond (λ k. json 200 (key (Service.clear_key_value k))) map_domain_error
          (Service.get_by_id e u)
  ]

  unfoldable pub revoke_stream_key : KeyInputs → String → World → Response KeyPayload × World
  revoke_stream_key i id = elim (parse_uuid id) [
    | none ↦ refuse (err_invalid_request "invalid stream key ID")
    | some u ↦ respond (λ _. header 204) map_domain_error (Service.revoke e i.now i.db_now u)
  ]

  -- `StreamKeyHandler.ServeHTTP`; `id` is the route's variable, empty if it has none.
  unfoldable pub serve_http :
      KeyInputs
      → Method
      → String
      → Option CreateStreamKeyRequest
      → World
      → Response KeyPayload × World
  serve_http i get id body = if str_eq id "" then list_stream_keys else get_stream_key id
  serve_http i post id body =
      if str_eq id ""
      then create_stream_key i body
      else refuse (err_invalid_request "method not allowed")
  serve_http i delete id body =
      if str_eq id ""
      then refuse (err_invalid_request "method not allowed")
      else revoke_stream_key i id
  serve_http i _ id body = refuse (err_invalid_request "method not allowed")
