-- ===== src/Handler/Webhook.antt =====
-- internal/handler/webhook.go
pub mod Answers
pub mod Healthy
pub mod Lifecycle
use rescuestream_api.Prelude.{Bool, String, Option, none, some, str_eq, if◌then◌else◌}
use rescuestream_api.Domain.{Uuid, Time, object, StreamStatus, StreamKey, Stream}
use rescuestream_api.Errors.{Action, attempt, ok, err, pure, ◌>>=◌}
use rescuestream_api.Env.{Env}
use rescuestream_api.Database.StreamKeyRepo
use rescuestream_api.Database.StreamRepo
use rescuestream_api.Handler.Http.{
  Method, post, Response, header, problem, err_invalid_request, err_not_found, err_internal_server,
}

pub record WebhookReadyRequest : Type 0 where
  pub path : String
  pub source_type : String
  pub source_id : String

pub record WebhookNotReadyRequest : Type 0 where
  pub path : String

-- `if s != "" { field = &s }`
abbrev pub non_empty : String → Option String
non_empty s = if str_eq s "" then none else some s

abbrev pub new_stream : Uuid → Time → StreamKey → WebhookReadyRequest → Stream
new_stream fresh now key req = record {
  id = fresh;
  stream_key_id = key.id;
  path = req.path;
  status = StreamStatus.active;
  started_at = now;
  ended_at = none;
  source_type = non_empty req.source_type;
  source_id = non_empty req.source_id;
  metadata = object "{}";
  recording_ref = none;
}

abbrev pub Answer : Type 0
Answer = Response (Unit {0})

module _ (e : Env) where
  open e use {World}

  -- What `handleReady` does once the path is known: every error is only logged.
  unfoldable pub record_stream : Uuid → Uuid → Time → WebhookReadyRequest → Action World Answer
  record_stream fresh spare now req = do
    r ← attempt (StreamKeyRepo.get_by_key_value e req.path)
    elim r [
      | ok key ↦ do
        created ← attempt (StreamRepo.create e spare (new_stream fresh now key req))
        pure (header 204)
      | err x ↦ pure (header 204)
    ]

  -- `fresh` is the new UUID and `spare` the one that the repository makes if that is `uuid.Nil`.
  unfoldable pub handle_ready :
      Uuid → Uuid → Time → Option WebhookReadyRequest → Action World Answer
  handle_ready fresh spare now none = pure (problem (err_invalid_request "invalid request body"))
  handle_ready fresh spare now (some req) =
      if str_eq req.path ""
      then pure (problem (err_invalid_request "path is required"))
      else record_stream fresh spare now req

  -- `db_now` is the database's `NOW()`.
  unfoldable pub handle_not_ready : Time → Option WebhookNotReadyRequest → Action World Answer
  handle_not_ready db_now none = pure (problem (err_invalid_request "invalid request body"))
  handle_not_ready db_now (some req) =
      if str_eq req.path ""
      then pure (problem (err_invalid_request "path is required"))
      else do done ← attempt (StreamRepo.end_stream_by_path e db_now req.path); pure (header 204)

-- What `mux.CurrentRoute` and `route.GetPathTemplate` answer.
pub data CurrentRoute : Type 0 where
  no_route no_template : CurrentRoute
  template : String → CurrentRoute

-- `strings.HasSuffix` is the parameter.
module _ (e : Env) (has_suffix : String → String → Bool) where
  open e use {World}

  -- The choice by the suffix of a path.
  unfoldable pub serve_path :
      Uuid
      → Uuid
      → Time
      → Time
      → Option WebhookReadyRequest
      → Option WebhookNotReadyRequest
      → String
      → Action World Answer
  serve_path fresh spare now db_now ready not_ready path =
      if has_suffix path "/ready"
      then handle_ready e fresh spare now ready
      else if has_suffix path "/not-ready"
      then handle_not_ready e db_now not_ready
      else pure (problem (err_not_found "unknown webhook endpoint"))

  -- `WebhookHandler.ServeHTTP`, with the body decoded as either request.
  unfoldable pub serve_http :
      Uuid
      → Uuid
      → Time
      → Time
      → Option WebhookReadyRequest
      → Option WebhookNotReadyRequest
      → Method
      → CurrentRoute
      → String
      → Action World Answer
  serve_http fresh spare now db_now ready not_ready post no_route url_path =
      serve_path fresh spare now db_now ready not_ready url_path
  serve_http fresh spare now db_now ready not_ready post no_template url_path =
      pure (problem (err_internal_server "failed to get route template"))
  serve_http fresh spare now db_now ready not_ready post (template path) url_path =
      serve_path fresh spare now db_now ready not_ready path
  serve_http fresh spare now db_now ready not_ready _ route url_path =
      pure (problem (err_invalid_request "method not allowed"))
