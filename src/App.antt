-- ===== src/App.antt =====
-- The wiring of cmd/rescuestream-api/main.go: the handlers over one environment, behind one server.
pub mod Reads
pub mod Steps
pub mod Handlers
pub mod Access
pub mod Unsigned
pub mod Sequence
use rescuestream_api.Prelude.{
  ℤ, ℕ, String, Bool, Option, none, List, [], ◌∷◌, str_eq, if◌then◌else◌,
}
use rescuestream_api.Domain.{Uuid, Time}
use rescuestream_api.Errors.{Result, ok, err}
use rescuestream_api.Env.{Env}
use rescuestream_api.Service.Auth.{AuthRequest}
use rescuestream_api.Service.Broadcasters.{CreateBroadcasterRequest, UpdateBroadcasterRequest}
use rescuestream_api.Handler.Http.{
  Method, get, post, patch, delete, other, Response, problem, err_internal_server,
}
use rescuestream_api.Handler.Payload.{Payload, key, broadcaster, stream, health, empty, map_payload}
use rescuestream_api.Handler.Webhook.{
  Answer, WebhookReadyRequest, WebhookNotReadyRequest, CurrentRoute, template,
}
use rescuestream_api.Handler.Webhook as Webhook
use rescuestream_api.Handler.Auth as Auth
use rescuestream_api.Handler.StreamKeys as StreamKeys
use rescuestream_api.Handler.StreamKeys.{CreateStreamKeyRequest}
use rescuestream_api.Handler.Broadcasters as Broadcasters
use rescuestream_api.Handler.Streams as Streams
use rescuestream_api.Handler.Health as Health
use rescuestream_api.Handler.KeyStore.{env_get_secret}
use rescuestream_api.Handler.Signature as Signature
use rescuestream_api.Server.{
  HttpRequest, HttpHandler, Guard, ServerOption, with_auth_middleware, with_auth_handler,
  with_webhook_handler, with_stream_handler, with_stream_key_handler, with_broadcaster_handler,
  with_health_handler, new,
}
use rescuestream_api.Server.Dispatch.{Mux, Served, serve}

-- The libraries' parsers and HMAC, and the decoders of `encoding/json` for the request types.
pub record Libraries : Type 0 where
  pub parse_uuid : String → Option Uuid
  pub parse_time : String → Option Time
  pub parse_int : String → Option ℤ
  pub format_int : ℤ → String
  pub sign : String → String → String
  pub has_suffix : String → String → Bool
  pub decode_auth : String → Option AuthRequest
  pub decode_ready : String → Option WebhookReadyRequest
  pub decode_not_ready : String → Option WebhookNotReadyRequest
  pub decode_key : String → Option CreateStreamKeyRequest
  pub decode_new_broadcaster : String → Option CreateBroadcasterRequest
  pub decode_broadcaster : String → Option UpdateBroadcasterRequest

-- What the configuration gives to the handlers.
pub record Settings : Type 0 where
  pub api_secret : String
  pub public_url : String

-- What one request gets of the clocks and the generators: two UUIDs and the text of a third, the
-- readings of `time.Now()` (twice where a handler reads it twice, and in nanoseconds for the
-- middleware), the database's `NOW()`, and the random bytes.
pub record Inputs : Type 0 where
  pub fresh : Uuid
  pub spare : Uuid
  pub request_id : String
  pub now : Time
  pub later : Time
  pub nanoseconds : ℕ
  pub db_now : Time
  pub random : Result (List ℕ)

abbrev pub method_of : String → Method
method_of m =
    if str_eq m "GET"
    then get
    else if str_eq m "POST"
    then post
    else if str_eq m "PATCH"
    then patch
    else if str_eq m "DELETE"
    then delete
    else other

-- `json.NewDecoder(r.Body).Decode(&req)`
abbrev pub decoded : {A : Type 0} → (String → Option A) → Result String → Option A
decoded decode (ok text) = decode text
decoded decode (err e) = none

-- A webhook's call has no error of its own.
abbrev payload_of : Result Answer → Response Payload
payload_of (ok a) = map_payload (λ _. empty) a
payload_of (err e) = problem (err_internal_server "")

abbrev pub answered : {W : Type 0} → Result Answer × W → Response Payload × W
answered (r, w) = (payload_of r, w)

abbrev pub with_payload : {P W : Type 0} → (P → Payload) → Response P × W → Response Payload × W
with_payload f (r, w) = (map_payload f r, w)

module _ (e : Env) (lib : Libraries) (settings : Settings) (i : Inputs) where
  open e use {World}

  unfoldable pub auth_handler : HttpHandler World
  auth_handler r m w =
      with_payload (λ _. empty)
        (Auth.serve_http e i.now i.db_now (method_of r.method) (decoded lib.decode_auth r.body) w)

  unfoldable pub webhook_handler : HttpHandler World
  webhook_handler r m w = answered (
      Webhook.serve_http e lib.has_suffix i.fresh i.spare i.now i.db_now
        (decoded lib.decode_ready r.body) (decoded lib.decode_not_ready r.body) (method_of r.method)
        (template m.template) r.path w)

  unfoldable pub stream_handler : HttpHandler World
  stream_handler r m w =
      with_payload stream
        (Streams.serve_http e settings.public_url lib.parse_uuid (method_of r.method) m.id w)

  unfoldable pub stream_key_handler : HttpHandler World
  stream_key_handler r m w = with_payload key (
      StreamKeys.serve_http e lib.parse_uuid lib.parse_time
        (record {
          fresh = i.fresh;
          spare = i.spare;
          now = i.now;
          db_now = i.db_now;
          random = i.random;
        })
        (method_of r.method) m.id (decoded lib.decode_key r.body) w)

  unfoldable pub broadcaster_handler : HttpHandler World
  broadcaster_handler r m w = with_payload broadcaster (
      Broadcasters.serve_http e lib.parse_uuid
        (record {
          fresh = i.fresh;
          spare = i.spare;
          created = i.now;
          updated = i.later;
          db_now = i.db_now;
        })
        (record {
          method = method_of r.method;
          id = m.id;
          to_create = decoded lib.decode_new_broadcaster r.body;
          to_update = decoded lib.decode_broadcaster r.body;
        })
        w)

  unfoldable pub health_handler : HttpHandler World
  health_handler r m w = with_payload health (Health.serve_http e (method_of r.method) w)

  -- `NewAuthMiddleware(NewEnvKeyStore(c.APISecret), logger)`
  abbrev pub auth_middleware : Guard
  auth_middleware =
      Signature.authenticate lib.parse_int lib.format_int lib.sign
        (env_get_secret settings.api_secret) i.nanoseconds

  -- The options that `main` gives to `server.New`.
  abbrev pub options : List (ServerOption World)
  options =
      with_auth_middleware auth_middleware
      ∷ with_auth_handler auth_handler
      ∷ with_webhook_handler webhook_handler
      ∷ with_stream_handler stream_handler
      ∷ with_stream_key_handler stream_key_handler
      ∷ with_broadcaster_handler broadcaster_handler
      ∷ with_health_handler health_handler
      ∷ []

  -- One request served.
  unfoldable pub serve_request : Mux World → HttpRequest → World → Served × World
  serve_request mux r w = serve mux (new options) i.request_id r w
