-- ===== src/Handler/StreamKeys/Hidden.antt =====
-- The key values in the responses of internal/handler/streamkey.go.
use rescuestream_api.Prelude.{
  ◌≡◌, refl, String, Bool, true, false, Option, none, some, List, [], ◌∷◌, map, length, All, str_eq,
  if◌then◌else◌,
}
use rescuestream_api.Domain.{Uuid, Time, StreamKey}
use rescuestream_api.Errors.{Error, Result, ok, err, Action}
use rescuestream_api.Env.{Env}
use rescuestream_api.Env.Rules.{bind_rule}
use rescuestream_api.Service.StreamKeys as Service
use rescuestream_api.Handler.Http.{
  get, delete, Response, header, json, problem, HttpError, map_domain_error, respond, refuse,
}
use rescuestream_api.Handler.StreamKeys.{
  KeyPayload, keys, key, KeyInputs, CreateStreamKeyRequest, list_stream_keys, get_stream_key,
  revoke_stream_key, serve_http,
}

-- No key in the response has a value, and a list comes with its length.
abbrev pub Hidden : Response KeyPayload → Type 0
Hidden (header n) = Unit
Hidden (json n (keys ks count)) = All (λ (k : StreamKey). k.key_value ≡ "") ks × (count ≡ length ks)
Hidden (json n (key k)) = k.key_value ≡ ""
Hidden (problem e) = Unit

map-clear_key_value :
    (ks : List StreamKey)
    → All (λ (k : StreamKey). k.key_value ≡ "") (map Service.clear_key_value ks)
map-clear_key_value [] = tt
map-clear_key_value (k ∷ ks) = (refl, map-clear_key_value ks)

module _ {W A : Type 0} where
  -- What holds of every value that a call can return.
  abbrev Returns : (A → Type 0) → Result A × W → Type 0
  Returns P (ok a, w) = P a
  Returns P (err x, w) = Unit

  respond-Hidden :
      (P : A → Type 0) (f : A → Response KeyPayload) (g : Error → HttpError) (m : Action W A)
      (w : W)
      → ((a : A) → P a → Hidden (f a))
      → Returns P (m w)
      → Hidden (respond f g m w).0
  respond-Hidden P f g m w each returns = by_result (m w).0 returns
    where
      by_result :
          (r : Result A)
          → Returns P (r, (m w).1)
          → Hidden (elim r as (λ _. Response KeyPayload) [ ok a ↦ f a | err x ↦ problem (g x) ])
      by_result (ok a) p = each a p
      by_result (err x) p = tt

  respond-Hidden_each :
      (f : A → Response KeyPayload) (g : Error → HttpError) (m : Action W A) (w : W)
      → ((a : A) → Hidden (f a))
      → Hidden (respond f g m w).0
  respond-Hidden_each f g m w each =
      respond-Hidden (λ _. Unit) f g m w (λ a _. each a) (by_result (m w).0)
    where
      by_result : (r : Result A) → Returns (λ _. Unit) (r, (m w).1)
      by_result (ok a) = tt
      by_result (err x) = tt

module _ {W : Type 0} where
  if-Hidden :
      (b : Bool) (m k : W → Response KeyPayload × W) (w : W)
      → Hidden (m w).0
      → Hidden (k w).0
      → Hidden ((if b then m else k) w).0
  if-Hidden true m k w h h' = h
  if-Hidden false m k w h h' = h'

  parse-Hidden :
      (o : Option Uuid) (x : HttpError) (k : Uuid → W → Response KeyPayload × W) (w : W)
      → ((u : Uuid) → Hidden (k u w).0)
      → Hidden
          ((elim o as (λ _. W → Response KeyPayload × W) [ none ↦ refuse x | some u ↦ k u ]) w).0
  parse-Hidden none x k w each = tt
  parse-Hidden (some u) x k w each = each u

module _ (e : Env) where
  open e use {World}

  list-Returns :
      (w : World) → Returns (All (λ (k : StreamKey). k.key_value ≡ "")) (Service.list e w)
  unfolding Service.list
  list-Returns w = bind_rule (Returns _) _ _ w (λ ks _. map-clear_key_value ks) (λ x _. tt)

  module _ (parse_uuid : String → Option Uuid) (parse_time : String → Option Time) where
    list_stream_keys-Hidden : (w : World) → Hidden (list_stream_keys e parse_uuid parse_time w).0
    unfolding list_stream_keys
    list_stream_keys-Hidden w =
        respond-Hidden (All (λ (k : StreamKey). k.key_value ≡ "")) _ _ (Service.list e) w
          (λ ks cleared. (cleared, refl)) (list-Returns w)

    get_stream_key-Hidden :
        (id : String) (w : World) → Hidden (get_stream_key e parse_uuid parse_time id w).0
    unfolding get_stream_key
    get_stream_key-Hidden id w = parse-Hidden (parse_uuid id) _ _ w (λ u.
        respond-Hidden_each (λ k. json 200 (key (Service.clear_key_value k))) map_domain_error
          (Service.get_by_id e u) w (λ k. refl))

    revoke_stream_key-Hidden :
        (i : KeyInputs) (id : String) (w : World)
        → Hidden (revoke_stream_key e parse_uuid parse_time i id w).0
    unfolding revoke_stream_key
    revoke_stream_key-Hidden i id w = parse-Hidden (parse_uuid id) _ _ w (λ u.
        respond-Hidden_each (λ _. header 204) map_domain_error (Service.revoke e i.now i.db_now u) w
          (λ _. tt))

    -- Whatever fails, the response to a GET or DELETE request for stream keys holds no key value,
    -- and a list in it comes with its length.
    pub serve_http-Hidden :
        (i : KeyInputs) (id : String) (body : Option CreateStreamKeyRequest) (w : World)
        → Hidden (serve_http e parse_uuid parse_time i get id body w).0
          × Hidden (serve_http e parse_uuid parse_time i delete id body w).0
    unfolding serve_http
    serve_http-Hidden i id body w = (
      if-Hidden (str_eq id "") _ _ w (list_stream_keys-Hidden w) (get_stream_key-Hidden id w),
      if-Hidden (str_eq id "") _ _ w tt (revoke_stream_key-Hidden i id w),
    )
