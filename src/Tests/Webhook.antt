-- ===== src/Tests/Webhook.antt =====
-- The webhooks on the sample tables.
use rescuestream_api.Prelude.{◌≡◌, ◌≢◌, refl, arith, eq_iff, String, ℕ, Option, true, false}
use rescuestream_api.Domain.{Time}
use rescuestream_api.Errors.{ok}
use rescuestream_api.Env.Memory.{memory}
use rescuestream_api.Service.Auth.{AuthRequest, shown_key, authenticate}
use rescuestream_api.Service.Auth.Access.{is_allowed}
use rescuestream_api.Service.Auth.Outcome.{in_use}
use rescuestream_api.Handler.Webhook.{
  WebhookReadyRequest, WebhookNotReadyRequest, handle_ready, handle_not_ready,
}
use rescuestream_api.Handler.Webhook.Answers.{
  response_to, ready_path, not_ready_path, webhook_answers,
}
use rescuestream_api.Handler.Webhook.Lifecycle.{stream_lifecycle}
use rescuestream_api.Tests.Data.{start, free_key, stored-IsConsistent}
use rescuestream_api.Prelude.{some}

abbrev ready : WebhookReadyRequest
ready = record { path = "sk_free"; source_type = "rtmpConn"; source_id = "" }

webhook_answers_example :
    ((body : Option WebhookReadyRequest)
      → (handle_ready memory 30 31 100 body start).0 ≡ ok (response_to (ready_path body)))
    × ((body : Option WebhookNotReadyRequest)
        → (handle_not_ready memory 100 body start).0 ≡ ok (response_to (not_ready_path body)))
webhook_answers_example = webhook_answers memory 30 31 100 start

ne_free : ◌≢◌ {A = String} "sk_free" ""
ne_free = ground (arith, eq_iff "sk_free" "")

thirty : ◌≢◌ {A = ℕ} 30 0
thirty = omega arith

stream_lifecycle_example :
    let w₁ = (handle_ready memory 30 31 100 (some ready) start).1 in
    (in_use w₁.stored free_key ≡ true)
    × ((later db_later : Time) (login : AuthRequest)
        → login.action ≡ "publish"
        → shown_key login ≡ "sk_free"
        → is_allowed (authenticate memory later db_later login w₁).0 ≡ false)
    × ((end : Time)
        → let w₂ = (handle_not_ready memory end (some (record { path = "sk_free" })) w₁).1 in
          in_use w₂.stored free_key ≡ false)
stream_lifecycle_example =
    stream_lifecycle memory 30 31 100 ready start free_key refl stored-IsConsistent thirty ne_free
      (refl, refl, refl) refl refl refl
