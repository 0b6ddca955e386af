-- ===== src/Handler/StreamKeys/Listing.antt =====
-- The answer to `GET /stream-keys` of internal/handler/streamkey.go.
use rescuestream_api.Prelude.{◌≡◌, refl, ap, ◌∙◌, String, Option, List, map, length, true}
use rescuestream_api.Domain.{Uuid, Time, StreamKey}
use rescuestream_api.Errors.{ok, wrap}
use rescuestream_api.Store.{query}
use rescuestream_api.Env.{Env}
use rescuestream_api.Env.Sorted.{Latest}
use rescuestream_api.Env.Healthy.{Gives, run_ok, handle_ok, bind_Gives, pure_after}
use rescuestream_api.Database.StreamKeyRepo
use rescuestream_api.Service.StreamKeys as Service
use rescuestream_api.Service.StreamKeys.{clear_key_value}
use rescuestream_api.Handler.Http.{get, json, err_internal_server}
use rescuestream_api.Handler.StreamKeys.{
  keys, KeyInputs, serve_http, list_stream_keys, CreateStreamKeyRequest,
}
use rescuestream_api.Handler.Http.Respond.{respond_ok}

module _ (e : Env) where
  open e use {World, tables, healthy, order_desc, order_perm, order_sorted}

  list-Gives :
      (w : World)
      → healthy w ≡ true
      → let xs = order_desc (λ (k : StreamKey). k.created_at) (tables w).stream_keys in
        Gives e (Service.list e) w (ok (map clear_key_value xs)) (tables w)
  unfolding Service.list StreamKeyRepo.list_all StreamKeyRepo.query_stream_keys
  list-Gives w up =
      let xs = order_desc (λ (k : StreamKey). k.created_at) (tables w).stream_keys in
      let read = handle_ok e ok (wrap "failed to query stream keys") _ w (
        run_ok e (query (λ t. order_desc (λ (k : StreamKey). k.created_at) t.stream_keys)) w up
          refl) in
      bind_Gives e _ _ w read (pure_after e (map clear_key_value xs) read)

  -- While the database answers, `GET /stream-keys` is answered with 200 and all keys, each once, the
  -- latest first and without its value, and with their number; and the tables stay.
  pub list_stream_keys-Latest :
      (parse_uuid : String → Option Uuid) (parse_time : String → Option Time) (i : KeyInputs)
      (body : Option CreateStreamKeyRequest) (w : World)
      → healthy w ≡ true
      → let answer = serve_http e parse_uuid parse_time i get "" body w in
        (xs : List StreamKey) × (answer.0
          ≡ json 200 (keys (map clear_key_value xs) (length (map clear_key_value xs))))
        × Latest (λ k. k.created_at) (tables w).stream_keys xs
        × (tables answer.1 ≡ tables w)
  unfolding serve_http list_stream_keys
  list_stream_keys-Latest parse_uuid parse_time i body w up =
      let g = list-Gives w up in
      let answer =
        respond_ok (λ ks. json 200 (keys ks (length ks)))
          (λ x. err_internal_server "failed to list stream keys") (Service.list e) w g.result in
      (
        order_desc (λ (k : StreamKey). k.created_at) (tables w).stream_keys,
        ap (λ a. a.0) answer,
        (order_perm _ (tables w).stream_keys, order_sorted _ (tables w).stream_keys),
        ap (λ a. tables a.1) answer ∙ g.left,
      )
