-- ===== src/App/Handlers.antt =====
-- Every handler's request is a run of at most one step: internal/handler.
use rescuestream_api.Prelude.{
  ◌≡◌, inl, inr, refl, Bool, true, false, String, Option, none, some, str_eq,
}
use rescuestream_api.Domain.{Uuid, Time}
use rescuestream_api.Env.{Env}
use rescuestream_api.Service.Auth.{AuthRequest, authenticate}
use rescuestream_api.Service.StreamKeys
use rescuestream_api.Service.Broadcasters
use rescuestream_api.Service.Streams as StreamService
use rescuestream_api.Handler.Http.{Method, get, post, patch, delete, other}
use rescuestream_api.Handler.Auth as Auth
use rescuestream_api.Handler.Webhook as Webhook
use rescuestream_api.Handler.StreamKeys as Keys
use rescuestream_api.Handler.Broadcasters as Owners
use rescuestream_api.Handler.Streams as Streams
use rescuestream_api.Handler.Health as Health
use rescuestream_api.Consistency.Reach.{
  auth, ready, not_ready, create_key, revoke_key, create_broadcaster, update_broadcaster,
  drop_broadcaster, here,
}
use rescuestream_api.App.Steps.{
  answer-Leads, Leads, one_step, same-Leads, read-Leads, if-Leads, option-Leads,
}
use rescuestream_api.App.Reads.{
  list_keys-Keeps, get_key-Keeps, list_broadcasters-Keeps, get_broadcaster-Keeps,
  list_streams-Keeps, get_stream-Keeps,
}

module _ (e : Env) where
  open e use {World}

  pub auth-Leads :
      (now db_now : Time) (m : Method) (body : Option AuthRequest)
      → Leads e false (Auth.serve_http e now db_now m body)
  unfolding Auth.serve_http
  auth-Leads now db_now post (some req) =
      answer-Leads e false _ _ (authenticate e now db_now req)
        (λ w. one_step e false (auth now db_now req w) (inl tt))
  auth-Leads now db_now post none = λ w. (here, tt)
  auth-Leads now db_now get body = λ w. (here, tt)
  auth-Leads now db_now patch body = λ w. (here, tt)
  auth-Leads now db_now delete body = λ w. (here, tt)
  auth-Leads now db_now other body = λ w. (here, tt)

  pub health-Leads : (m : Method) → Leads e false (Health.serve_http e m)
  unfolding Health.serve_http
  health-Leads get =
      answer-Leads e false _ _ e.ping (same-Leads e false e.ping (λ w. (e.ping_lem w).0))
  health-Leads post = λ w. (here, tt)
  health-Leads patch = λ w. (here, tt)
  health-Leads delete = λ w. (here, tt)
  health-Leads other = λ w. (here, tt)

  module _ (has_suffix : String → String → Bool) (fresh spare : Uuid) (now db_now : Time)
      (to_start : Option Webhook.WebhookReadyRequest)
      (to_end : Option Webhook.WebhookNotReadyRequest) where
    webhook_path-Leads :
        (path : String)
        → Leads e false
            (Webhook.serve_path e has_suffix fresh spare now db_now to_start to_end path)
    unfolding Webhook.serve_path
    webhook_path-Leads path =
        if-Leads e false (has_suffix path "/ready") _ _
          (λ w. one_step e false (ready fresh spare now to_start w) (inl tt))
          (if-Leads e false (has_suffix path "/not-ready") _ _
            (λ w. one_step e false (not_ready db_now to_end w) (inl tt)) (λ w. (here, tt)))

    pub webhook-Leads :
        (m : Method) (route : Webhook.CurrentRoute) (url_path : String)
        → Leads e false (
            Webhook.serve_http e has_suffix fresh spare now db_now to_start to_end m route url_path)
    unfolding Webhook.serve_http
    webhook-Leads post Webhook.CurrentRoute.no_route url_path = webhook_path-Leads url_path
    webhook-Leads post Webhook.CurrentRoute.no_template url_path = λ w. (here, tt)
    webhook-Leads post (Webhook.CurrentRoute.template path) url_path = webhook_path-Leads path
    webhook-Leads get route url_path = λ w. (here, tt)
    webhook-Leads patch route url_path = λ w. (here, tt)
    webhook-Leads delete route url_path = λ w. (here, tt)
    webhook-Leads other route url_path = λ w. (here, tt)

  pub stream-Leads :
      (url : String) (parse_uuid : String → Option Uuid) (m : Method) (id : String)
      → Leads e true (Streams.serve_http e url parse_uuid m id)
  unfolding Streams.serve_http Streams.list_streams Streams.get_stream
  stream-Leads url parse_uuid get id =
      if-Leads e true (str_eq id "") _ _
        (read-Leads e true (StreamService.list_active e url)
          (λ t. list_streams-Keeps e (λ u. u ≡ t) url))
        (option-Leads e true (parse_uuid id) _ _ (λ w. (here, tt))
          (λ u.
            read-Leads e true (StreamService.get_by_id e url u)
              (λ t. get_stream-Keeps e (λ v. v ≡ t) url u)))
  stream-Leads url parse_uuid post id = λ w. (here, tt)
  stream-Leads url parse_uuid patch id = λ w. (here, tt)
  stream-Leads url parse_uuid delete id = λ w. (here, tt)
  stream-Leads url parse_uuid other id = λ w. (here, tt)

  module _ (parse_uuid : String → Option Uuid) where
    key_created-Leads :
        (parse_time : String → Option Time) (i : Keys.KeyInputs) (id : Option Uuid)
        (expiry : Option (Option Time))
        → Leads e true (Keys.create_parsed e parse_uuid parse_time i id expiry)
    unfolding Keys.create_parsed
    key_created-Leads parse_time i none expiry = λ w. (here, tt)
    key_created-Leads parse_time i (some id) none = λ w. (here, tt)
    key_created-Leads parse_time i (some id) (some expiry) =
        λ w. one_step e true (create_key i.fresh i.spare i.now i.random _ w) (inr refl)

    key_body-Leads :
        (parse_time : String → Option Time) (i : Keys.KeyInputs)
        (body : Option Keys.CreateStreamKeyRequest)
        → Leads e true (Keys.create_stream_key e parse_uuid parse_time i body)
    unfolding Keys.create_stream_key
    key_body-Leads parse_time i none = λ w. (here, tt)
    key_body-Leads parse_time i (some req) =
        if-Leads e true (str_eq req.broadcaster_id "") _ _ (λ w. (here, tt))
          (key_created-Leads parse_time i _ _)

    pub key-Leads :
        (parse_time : String → Option Time) (i : Keys.KeyInputs) (m : Method) (id : String)
        (body : Option Keys.CreateStreamKeyRequest)
        → Leads e true (Keys.serve_http e parse_uuid parse_time i m id body)
    unfolding Keys.serve_http Keys.list_stream_keys Keys.get_stream_key Keys.revoke_stream_key
    key-Leads parse_time i get id body =
        if-Leads e true (str_eq id "") _ _
          (read-Leads e true (StreamKeys.list e) (λ t. list_keys-Keeps e (λ u. u ≡ t)))
          (option-Leads e true (parse_uuid id) _ _ (λ w. (here, tt))
            (λ u.
              read-Leads e true (StreamKeys.get_by_id e u) (λ t. get_key-Keeps e (λ v. v ≡ t) u)))
    key-Leads parse_time i post id body =
        if-Leads e true (str_eq id "") _ _ (key_body-Leads parse_time i body) (λ w. (here, tt))
    key-Leads parse_time i delete id body =
        if-Leads e true (str_eq id "") _ _ (λ w. (here, tt))
          (option-Leads e true (parse_uuid id) _ _ (λ w. (here, tt))
            (λ u w. one_step e true (revoke_key i.now i.db_now u w) (inr refl)))
    key-Leads parse_time i patch id body = λ w. (here, tt)
    key-Leads parse_time i other id body = λ w. (here, tt)

    owner_body-Leads :
        (i : Owners.BroadcasterInputs) (body : Option Broadcasters.CreateBroadcasterRequest)
        → Leads e true (Owners.create_broadcaster e parse_uuid i body)
    unfolding Owners.create_broadcaster
    owner_body-Leads i none = λ w. (here, tt)
    owner_body-Leads i (some req) =
        if-Leads e true (str_eq req.display_name "") _ _ (λ w. (here, tt))
          (λ w.
            one_step e true (create_broadcaster i.fresh i.spare i.created i.updated req w)
              (inr refl))

    owner_update-Leads :
        (db_now : Time) (u : Uuid) (body : Option Broadcasters.UpdateBroadcasterRequest)
        → Leads e true (Owners.update_parsed e parse_uuid db_now u body)
    unfolding Owners.update_parsed
    owner_update-Leads db_now u none = λ w. (here, tt)
    owner_update-Leads db_now u (some req) =
        λ w. one_step e true (update_broadcaster db_now u req w) (inr refl)

    one_owner-Leads :
        (i : Owners.BroadcasterInputs) (r : Owners.BroadcasterRequest) (m : Method)
        → Leads e true (Owners.serve_one e parse_uuid i r m)
    unfolding Owners.serve_one Owners.get_broadcaster Owners.update_broadcaster
        Owners.delete_broadcaster
    one_owner-Leads i r get =
        option-Leads e true (parse_uuid r.id) _ _ (λ w. (here, tt))
          (λ u.
            read-Leads e true (Broadcasters.get_by_id e u)
              (λ t. get_broadcaster-Keeps e (λ v. v ≡ t) u))
    one_owner-Leads i r patch =
        option-Leads e true (parse_uuid r.id) _ _ (λ w. (here, tt))
          (λ u. owner_update-Leads i.db_now u r.to_update)
    one_owner-Leads i r delete =
        option-Leads e true (parse_uuid r.id) _ _ (λ w. (here, tt))
          (λ u w. one_step e true (drop_broadcaster u w) (inr refl))
    one_owner-Leads i r post = λ w. (here, tt)
    one_owner-Leads i r other = λ w. (here, tt)

    all_owners-Leads :
        (i : Owners.BroadcasterInputs) (r : Owners.BroadcasterRequest) (m : Method)
        → Leads e true (Owners.serve_all e parse_uuid i r m)
    unfolding Owners.serve_all Owners.list_broadcasters
    all_owners-Leads i r get =
        read-Leads e true (Broadcasters.list e) (λ t. list_broadcasters-Keeps e (λ u. u ≡ t))
    all_owners-Leads i r post = owner_body-Leads i r.to_create
    all_owners-Leads i r patch = λ w. (here, tt)
    all_owners-Leads i r delete = λ w. (here, tt)
    all_owners-Leads i r other = λ w. (here, tt)

    pub owner-Leads :
        (i : Owners.BroadcasterInputs) (r : Owners.BroadcasterRequest)
        → Leads e true (Owners.serve_http e parse_uuid i r)
    unfolding Owners.serve_http
    owner-Leads i r =
        if-Leads e true (str_eq r.id "") _ _ (all_owners-Leads i r r.method)
          (one_owner-Leads i r r.method)
