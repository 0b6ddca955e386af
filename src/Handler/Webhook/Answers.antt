-- ===== src/Handler/Webhook/Answers.antt =====
-- The responses of internal/handler/webhook.go.
use rescuestream_api.Prelude.{
  ◌≡◌, refl, ap, ◌∙◌, String, Bool, true, false, Option, none, some, str_eq, if◌then◌else◌,
}
use rescuestream_api.Domain.{Uuid, Time, StreamKey}
use rescuestream_api.Errors.{Result, ok, err, Action, attempt, pure, ◌>>=◌}
use rescuestream_api.Env.{Env}
use rescuestream_api.Env.Rules.{bind_ok}
use rescuestream_api.Handler.Http.{header, problem, err_invalid_request}
use rescuestream_api.Database.StreamKeyRepo
use rescuestream_api.Database.StreamRepo
use rescuestream_api.Handler.Webhook.{
  Answer, WebhookReadyRequest, WebhookNotReadyRequest, handle_ready, record_stream, new_stream,
  handle_not_ready,
}

-- The response to a body with the path that it gives, if it can be decoded.
abbrev pub response_to : Option String → Answer
response_to none = problem (err_invalid_request "invalid request body")
response_to (some path) =
    if str_eq path "" then problem (err_invalid_request "path is required") else header 204

abbrev pub ready_path : Option WebhookReadyRequest → Option String
ready_path none = none
ready_path (some req) = some req.path

abbrev pub not_ready_path : Option WebhookNotReadyRequest → Option String
not_ready_path none = none
not_ready_path (some req) = some req.path

-- A call whose outcome is only logged.
pub attempt_then :
    {W A B : Type 0} (m : Action W A) (f : Result A → Action W B) (w : W)
    → (attempt m >>= f) w ≡ f (m w).0 (m w).1
unfolding attempt
attempt_then m f w = bind_ok (attempt m) f w refl

module _ (e : Env) where
  open e use {World}

  if-answer :
      {A : Type 0} (b : Bool) (m k : Action World A) (w : World) {x y : A}
      → (m w).0 ≡ ok x
      → (k w).0 ≡ ok y
      → ((if b then m else k) w).0 ≡ ok (if b then x else y)
  if-answer true m k w h h' = h
  if-answer false m k w h h' = h'

  record_stream-answer :
      (fresh spare : Uuid) (now : Time) (req : WebhookReadyRequest) (w : World)
      → (record_stream e fresh spare now req w).0 ≡ ok (header 204)
  unfolding record_stream
  record_stream-answer fresh spare now req w =
      ap (λ r. r.0) (attempt_then _ _ w)
      ∙ by_lookup (StreamKeyRepo.get_by_key_value e req.path w).0 _
    where
      by_lookup :
          (r : Result StreamKey) (w' : World)
          → ((elim r as (λ _. Action World Answer) [
            | ok key ↦ do
              created ← attempt (StreamRepo.create e spare (new_stream fresh now key req))
              pure (header 204)
            | err x ↦ pure (header 204)
          ])
              w').0
            ≡ ok (header 204)
      by_lookup (ok key) w' = ap (λ r. r.0) (attempt_then _ _ w')
      by_lookup (err x) w' = refl

  -- The ready and the not-ready webhook always answer, whatever fails: with 400 if the body cannot
  -- be decoded or its path is empty, and otherwise with 204, also when the key is unknown or the
  -- database refused the change.
  pub webhook_answers :
      (fresh spare : Uuid) (now : Time) (w : World)
      → ((body : Option WebhookReadyRequest)
          → (handle_ready e fresh spare now body w).0 ≡ ok (response_to (ready_path body)))
        × ((body : Option WebhookNotReadyRequest)
            → (handle_not_ready e now body w).0 ≡ ok (response_to (not_ready_path body)))
  unfolding handle_ready handle_not_ready
  webhook_answers fresh spare now w = (
    elim [
      | none ↦ refl
      | some req ↦
          if-answer (str_eq req.path "") _ _ w refl (record_stream-answer fresh spare now req w)
    ],
    elim [
      | none ↦ refl
      | some req ↦ if-answer (str_eq req.path "") _ _ w refl (ap (λ r. r.0) (attempt_then _ _ w))
    ],
  )
