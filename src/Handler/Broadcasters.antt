-- ===== src/Handler/Broadcasters.antt =====
-- internal/handler/broadcaster.go. `uuid.Parse` is a parameter.
pub mod ReadBack
pub mod Deletion
use rescuestream_api.Prelude.{ℕ, String, Option, none, some, List, length, str_eq, if◌then◌else◌}
use rescuestream_api.Domain.{Uuid, Time, Broadcaster}
use rescuestream_api.Env.{Env}
use rescuestream_api.Service.Broadcasters as Service
use rescuestream_api.Service.Broadcasters.{CreateBroadcasterRequest, UpdateBroadcasterRequest}
use rescuestream_api.Handler.Http.{
  Method, get, post, patch, delete, other, Response, header, json, err_invalid_request,
  err_internal_server, map_domain_error, respond, refuse,
}

-- `BroadcasterListResponse`, or one broadcaster.
pub data BroadcasterPayload : Type 0 where
  broadcasters : List Broadcaster → ℕ → BroadcasterPayload
  broadcaster : Broadcaster → BroadcasterPayload

-- New UUIDs, the readings of `time.Now()` and the database's clock.
pub record BroadcasterInputs : Type 0 where
  pub fresh : Uuid
  pub spare : Uuid
  pub created : Time
  pub updated : Time
  pub db_now : Time

-- A request, with its body decoded as the two request types.
pub record BroadcasterRequest : Type 0 where
  pub method : Method
  pub id : String
  pub to_create : Option CreateBroadcasterRequest
  pub to_update : Option UpdateBroadcasterRequest

module _ (e : Env) (parse_uuid : String → Option Uuid) where
  open e use {World}

  unfoldable pub list_broadcasters : World → Response BroadcasterPayload × World
  list_broadcasters =
      respond (λ bs. json 200 (broadcasters bs (length bs)))
        (λ x. err_internal_server "failed to list broadcasters") (Service.list e)

  unfoldable pub create_broadcaster :
      BroadcasterInputs
      → Option CreateBroadcasterRequest
      → World
      → Response BroadcasterPayload × World
  create_broadcaster i none = refuse (err_invalid_request "invalid request body")
  create_broadcaster i (some req) =
      if str_eq req.display_name ""
      then refuse (err_invalid_request "display_name is required")
      else respond (λ b. json 201 (broadcaster b)) map_domain_error
          (Service.create e i.fresh i.spare i.created i.updated req)

  unfoldable pub get_broadcaster : String → World → Response BroadcasterPayload × World
  get_broadcaster id = elim (parse_uuid id) [
    | none ↦ refuse (err_invalid_request "invalid broadcaster ID")
    | some u ↦ respond (λ b. json 200 (broadcaster b)) map_domain_error (Service.get_by_id e u)
  ]

  unfoldable pub update_parsed :
      Time → Uuid → Option UpdateBroadcasterRequest → World → Response BroadcasterPayload × World
  update_parsed db_now u none = refuse (err_invalid_request "invalid request body")
  update_parsed db_now u (some req) =
      respond (λ b. json 200 (broadcaster b)) map_domain_error (Service.update e db_now u req)

  unfoldable pub update_broadcaster :
      Time → String → Option UpdateBroadcasterRequest → World → Response BroadcasterPayload × World
  update_broadcaster db_now id body = elim (parse_uuid id) [
    | none ↦ refuse (err_invalid_request "invalid broadcaster ID")
    | some u ↦ update_parsed db_now u body
  ]

  unfoldable pub delete_broadcaster : String → World → Response BroadcasterPayload × World
  delete_broadcaster id = elim (parse_uuid id) [
    | none ↦ refuse (err_invalid_request "invalid broadcaster ID")
    | some u ↦ respond (λ _. header 204) map_domain_error (Service.delete e u)
  ]

  -- The requests whose route has an ID.
  unfoldable pub serve_one :
      BroadcasterInputs → BroadcasterRequest → Method → World → Response BroadcasterPayload × World
  serve_one i r get = get_broadcaster r.id
  serve_one i r patch = update_broadcaster i.db_now r.id r.to_update
  serve_one i r delete = delete_broadcaster r.id
  serve_one i r post = refuse (err_invalid_request "method not allowed")
  serve_one i r other = refuse (err_invalid_request "method not allowed")

  -- The requests whose route has none.
  unfoldable pub serve_all :
      BroadcasterInputs → BroadcasterRequest → Method → World → Response BroadcasterPayload × World
  serve_all i r get = list_broadcasters
  serve_all i r post = create_broadcaster i r.to_create
  serve_all i r patch = refuse (err_invalid_request "method not allowed")
  serve_all i r delete = refuse (err_invalid_request "method not allowed")
  serve_all i r other = refuse (err_invalid_request "method not allowed")

  -- `BroadcasterHandler.ServeHTTP`
  unfoldable pub serve_http :
      BroadcasterInputs → BroadcasterRequest → World → Response BroadcasterPayload × World
  serve_http i r = if str_eq r.id "" then serve_all i r r.method else serve_one i r r.method
