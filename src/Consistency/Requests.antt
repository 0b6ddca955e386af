-- ===== src/Consistency/Requests.antt =====
-- The other calls that change the tables: internal/service and internal/handler/webhook.go.
use rescuestream_api.Prelude.{ℕ, String, Option, none, some, List, str_eq, arith}
use rescuestream_api.Domain.{Uuid, Time, StreamKey}
use rescuestream_api.Errors.{Result, ok, err}
use rescuestream_api.Store.Invariant.{Preserves, RevokedAtSet, EndedAtSet}
use rescuestream_api.Env.{Env}
use rescuestream_api.Database.StreamKeyRepo
use rescuestream_api.Database.StreamRepo
use rescuestream_api.Database.BroadcasterRepo
use rescuestream_api.Service.StreamKeys
use rescuestream_api.Service.Broadcasters
use rescuestream_api.Handler.Webhook
use rescuestream_api.Consistency.Base.{with_text-Preserves, query_row-Preserves}
use rescuestream_api.Consistency.Rules.{UseRules, Rules}
use rescuestream_api.Consistency.Revoke.{affected-Keeps}
use rescuestream_api.Store
use rescuestream_api.Store.{Tables}
use rescuestream_api.Consistency.Actions.{
  Keeps, run-Keeps, if-Keeps, >>=-Keeps, handle-Keeps, attempt-Keeps,
}

new_key-RevokedAtSet :
    (spare fresh : Uuid) (now : Time) (value : String) (req : StreamKeys.CreateRequest)
    → RevokedAtSet (
        StreamKeyRepo.new_row
          (StreamKeyRepo.with_id spare (StreamKeys.new_key fresh now value req)))
new_key-RevokedAtSet spare fresh now value req = ground arith

new_stream-EndedAtSet :
    (spare fresh : Uuid) (now : Time) (key : StreamKey) (req : Webhook.WebhookReadyRequest)
    → EndedAtSet
        (StreamRepo.new_row (StreamRepo.with_id spare (Webhook.new_stream fresh now key req)))
new_stream-EndedAtSet spare fresh now key req = ground arith

module _ (e : Env) (I : Tables → Type 0) (rules : UseRules I) where
  open e use {World, tables}

  -- Webhooks.
  pub handle_ready-Keeps :
      (fresh spare : Uuid) (now : Time) (body : Option Webhook.WebhookReadyRequest)
      → Keeps e I (Webhook.handle_ready e fresh spare now body)
  unfolding Webhook.handle_ready Webhook.record_stream StreamKeyRepo.get_by_key_value
      StreamRepo.create
  handle_ready-Keeps fresh spare now none = λ w c. c
  handle_ready-Keeps fresh spare now (some req) =
      if-Keeps e I (str_eq req.path "") _ _ (λ w c. c)
        (>>=-Keeps e I _ _
          (attempt-Keeps e I _ (
            handle-Keeps e I _ _ _
              (run-Keeps e I _ (with_text-Preserves I req.path _ (query_row-Preserves I _)))))
          (elim [
            | ok key ↦
                >>=-Keeps e I _ _
                  (attempt-Keeps e I _ (
                    >>=-Keeps e I _ _
                      (handle-Keeps e I _ _ _ (
                        run-Keeps e I _
                          (rules.stream_added _ (new_stream-EndedAtSet spare fresh now key req))))
                      (λ n w c. c)))
                  (λ created w c. c)
            | err x ↦ λ w c. c
          ]))

  pub handle_not_ready-Keeps :
      (now : Time) (body : Option Webhook.WebhookNotReadyRequest)
      → Keeps e I (Webhook.handle_not_ready e now body)
  unfolding Webhook.handle_not_ready StreamRepo.end_stream_by_path
  handle_not_ready-Keeps now none = λ w c. c
  handle_not_ready-Keeps now (some req) =
      if-Keeps e I (str_eq req.path "") _ _ (λ w c. c)
        (>>=-Keeps e I _ _
          (attempt-Keeps e I _ (
            >>=-Keeps e I _ _
              (handle-Keeps e I _ _ _
                (run-Keeps e I _ (with_text-Preserves I req.path _ (rules.streams_ended _ now))))
              (affected-Keeps e I)))
          (λ done w c. c))

module _ (e : Env) (I : Tables → Type 0) (rules : Rules I) where
  open e use {World, tables}

  -- Services of stream keys.
  pub create_key-Keeps :
      (fresh spare : Uuid) (now : Time) (random : Result (List ℕ)) (req : StreamKeys.CreateRequest)
      → Keeps e I (StreamKeys.create e fresh spare now random req)
  unfolding StreamKeys.create StreamKeyRepo.create
  create_key-Keeps fresh spare now random req =
      >>=-Keeps e I _ _ (handle-Keeps e I _ _ _ (λ w c. c)) (λ value.
        >>=-Keeps e I _ _
          (handle-Keeps e I _ _ _
            (run-Keeps e I _ (rules.key_added _ (new_key-RevokedAtSet spare fresh now value req))))
          (λ n w c. c))

  -- Services of broadcasters.
  pub create_broadcaster-Keeps :
      (fresh spare : Uuid) (created updated : Time) (req : Broadcasters.CreateBroadcasterRequest)
      → Keeps e I (Broadcasters.create e fresh spare created updated req)
  unfolding Broadcasters.create BroadcasterRepo.create
  create_broadcaster-Keeps fresh spare created updated req =
      >>=-Keeps e I _ _ (handle-Keeps e I _ _ _ (run-Keeps e I _ (rules.broadcaster_added _)))
        (λ n w c. c)

  pub update_broadcaster-Keeps :
      (now : Time) (id : Uuid) (req : Broadcasters.UpdateBroadcasterRequest)
      → Keeps e I (Broadcasters.update e now id req)
  unfolding Broadcasters.update BroadcasterRepo.get_by_id BroadcasterRepo.update
  update_broadcaster-Keeps now id req =
      >>=-Keeps e I _ _ (handle-Keeps e I _ _ _ (run-Keeps e I _ (query_row-Preserves I _))) (λ b.
        >>=-Keeps e I _ _
          (>>=-Keeps e I _ _
            (handle-Keeps e I _ _ _
              (run-Keeps e I _ (rules.broadcaster_changed _ _ now (Broadcasters.edited req b))))
            (affected-Keeps e I))
          (λ _. handle-Keeps e I _ _ _ (run-Keeps e I _ (query_row-Preserves I _))))

  -- Deleting a broadcaster takes its keys and their streams, which a predicate may allow for some
  -- broadcasters alone.
  pub delete_broadcaster-Keeps :
      (id : Uuid) → Preserves I (Store.delete_broadcaster id) → Keeps e I (Broadcasters.delete e id)
  unfolding Broadcasters.delete BroadcasterRepo.delete
  delete_broadcaster-Keeps id keep =
      >>=-Keeps e I _ _ (handle-Keeps e I _ _ _ (run-Keeps e I _ keep)) (affected-Keeps e I)
