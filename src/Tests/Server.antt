-- ===== src/Tests/Server.antt =====
-- Requests over HTTP on the sample tables.
use mathlib.Core.List.{Memᴰ}
use rescuestream_api.Prelude.{
  pos, ◌≡◌, refl, inl, inr, String, true, none, some, List, [], ◌∷◌, any, str_eq, if◌then◌else◌,
  Bool-cases, eq_iff, sym,
}
use rescuestream_api.Errors.{ok, err, external}
use rescuestream_api.Env.Memory.{Memory, memory}
use rescuestream_api.Consistency.Reach.{Reach}
use rescuestream_api.Consistency.Used.{IsUsed}
use rescuestream_api.Prelude.{ℕ}
use rescuestream_api.Errors.{◌>>=◌, handle}
use rescuestream_api.Database.StreamKeyRepo
use rescuestream_api.Service.StreamKeys as Service
use rescuestream_api.Handler.KeyStore.{env_get_secret}
use rescuestream_api.Handler.Signature as Signature
use rescuestream_api.Handler.StreamKeys as Keys
use rescuestream_api.Handler.Health as Health
use rescuestream_api.App.{
  auth_handler, webhook_handler, stream_handler, stream_key_handler, broadcaster_handler,
  health_handler,
}
use rescuestream_api.Server.{setup_routes, public_routes, protected_routes}
use rescuestream_api.Server.{
  HttpRequest, Route, new, apply_options, with_auth_middleware, with_auth_handler,
  with_webhook_handler, with_stream_handler, with_stream_key_handler, with_broadcaster_handler,
  with_health_handler,
}
use rescuestream_api.Server.Dispatch.{
  Found, unclean, found, no_template, no_method, IsFrom, Mux, signed_request, serve, reply_status,
}
use rescuestream_api.Server.Guarded.{Passed, serve-Passed}
use rescuestream_api.App.{Libraries, Settings, Inputs, options, auth_middleware, serve_request}
use rescuestream_api.App.Steps.{Within}
use rescuestream_api.App.Access.{is_forwarded, serve_request-Reach}
use rescuestream_api.App.Unsigned.{unsigned_request-IsUsed}
use rescuestream_api.App.Sequence.{
  Arrival, serve_requests, unsigned_requests-IsUsed, serve_requests-IsConsistent,
}
use rescuestream_api.Store.Invariant.{IsConsistent}
use rescuestream_api.Tests.Data.{start, stored, publish, stored-IsConsistent}

any-Mem :
    (method : String) (ms : List String) → any (λ m. str_eq m method) ms ≡ true → Memᴰ method ms
any-Mem method [] h = cc
any-Mem method (m ∷ ms) h = elim (Bool-cases (str_eq m method)) [
  | inl same ↦ Memᴰ.head (sym ((eq_iff m method).0 same))
  | inr other ↦ Memᴰ.tail (any-Mem method ms (rw other at h))
]

-- A multiplexer for templates without a variable.
module _ {W : Type 0} where
  abbrev match : List (Route W) → String → String → Found W
  match [] method path = no_template
  match (r ∷ routes) method path =
      let rest = match routes method path in
      if str_eq r.template path
      then (if any (λ m. str_eq m method) r.methods then found r "" else no_method)
      else rest

  later-IsFrom :
      (r : Route W) (routes : List (Route W)) (method : String) (f : Found W)
      → IsFrom routes method f
      → IsFrom (r ∷ routes) method f
  later-IsFrom r routes method (found x id) (from, takes) = (Memᴰ.tail from, takes)
  later-IsFrom r routes method (unclean path) from = tt
  later-IsFrom r routes method no_template from = tt
  later-IsFrom r routes method no_method from = tt

  match_lem :
      (routes : List (Route W)) (method path : String)
      → IsFrom routes method (match routes method path)
  match_lem [] method path = tt
  match_lem (r ∷ routes) method path = elim (Bool-cases (str_eq r.template path)) [
    | inr other ↦ rw other (later-IsFrom r routes method _ (match_lem routes method path))
    | inl here ↦ elim (Bool-cases (any (λ m. str_eq m method) r.methods)) [
      | inl takes ↦ rw here (rw takes (Memᴰ.head refl, any-Mem method r.methods takes))
      | inr refuses ↦ rw here (rw refuses tt)
    ]
  ]

abbrev mux : Mux Memory
mux = record { match = match; match_lem = match_lem }

-- Libraries that parse what the requests below hold.
abbrev libraries : Libraries
libraries = record {
  parse_uuid = λ s. if str_eq s "1" then some 1 else none;
  parse_time = λ s. none;
  parse_int = λ s. if str_eq s "1700000000" then some (pos 1700000000) else none;
  format_int = λ t. "1700000000";
  sign = λ secret text. secret;
  has_suffix = str_eq;
  decode_auth = λ s. some (publish "" "/sk_free");
  decode_ready = λ s. none;
  decode_not_ready = λ s. none;
  decode_key = λ s. none;
  decode_new_broadcaster = λ s. none;
  decode_broadcaster = λ s. none;
}

abbrev settings : Settings
settings = record { api_secret = "s3cret"; public_url = "http://live" }

abbrev inputs : Inputs
inputs = record {
  fresh = 31;
  spare = 32;
  request_id = "r-1";
  now = 100;
  later = 100;
  nanoseconds = 1700000100000000000;
  db_now = 101;
  random = err (external "no bytes");
}

abbrev request : String → String → String → String → String → HttpRequest
request method path api_key signature timestamp = record {
  method = method;
  path = path;
  request_id = "";
  api_key = api_key;
  signature = signature;
  timestamp = timestamp;
  body = ok "{}";
}

-- MediaMTX asks whether a free key may be used.
abbrev asks : HttpRequest
asks = request "POST" "/auth" "" "" ""

abbrev lists : HttpRequest
lists = request "GET" "/stream-keys" "admin" "s3cret" "1700000000"

abbrev served : HttpRequest → Memory
served r = (serve_request memory libraries settings inputs mux r start).1

serve-Passed_example :
    Passed
      (some (auth_middleware memory libraries settings inputs))
      lists
      start
      (match (new (options memory libraries settings inputs)) "GET" "/stream-keys")
      (serve mux (new (options memory libraries settings inputs)) "r-1" lists start)
unfolding apply_options with_auth_middleware with_auth_handler with_webhook_handler
    with_stream_handler with_stream_key_handler with_broadcaster_handler with_health_handler
serve-Passed_example = serve-Passed (options memory libraries settings inputs) mux "r-1" lists start

serve_request-Reach_example :
    (run : Reach memory start (served lists)) × Within
      (is_forwarded (auth_middleware memory libraries settings inputs (signed_request lists)))
      run
serve_request-Reach_example = serve_request-Reach memory libraries settings inputs mux lists start

unsigned_request-IsUsed_example : IsUsed stored (served asks).stored
unsigned_request-IsUsed_example =
    unsigned_request-IsUsed memory libraries settings inputs mux asks start
      (λ signed. signed.has_key refl) stored-IsConsistent

abbrev arrival : HttpRequest → Arrival Memory
arrival r = record { inputs = inputs; mux = mux; request = r }

abbrev two_unsigned : List (Arrival Memory)
two_unsigned = arrival asks ∷ arrival asks ∷ []

unsigned_requests-IsUsed_example :
    IsUsed stored (serve_requests memory libraries settings two_unsigned start).stored
unsigned_requests-IsUsed_example =
    unsigned_requests-IsUsed memory libraries settings two_unsigned start
      ((λ signed. signed.has_key refl), ((λ signed. signed.has_key refl), tt)) stored-IsConsistent

serve_requests-IsConsistent_example :
    IsConsistent
      ((serve_requests memory libraries settings (arrival lists ∷ two_unsigned) start).stored)
serve_requests-IsConsistent_example =
    serve_requests-IsConsistent memory libraries settings (arrival lists ∷ two_unsigned) start
      stored-IsConsistent

program : Unit {0}
unfolding serve_request serve new apply_options with_auth_middleware with_auth_handler
    with_webhook_handler with_stream_handler with_stream_key_handler with_broadcaster_handler
    with_health_handler setup_routes public_routes protected_routes auth_handler webhook_handler
    stream_handler stream_key_handler broadcaster_handler health_handler Signature.authenticate
    Signature.check_timestamp Signature.check_secret Signature.check_signature Signature.in_window
    env_get_secret Health.serve_http Keys.serve_http Keys.list_stream_keys Service.list
    StreamKeyRepo.list_all StreamKeyRepo.query_stream_keys ◌>>=◌ handle
program = tt

abbrev status : HttpRequest → ℕ
status r = reply_status (serve_request memory libraries settings inputs mux r start).0.reply

statuses :
    (status lists ≡ 200)
    × (status (request "GET" "/stream-keys" "admin" "wrong" "1700000000") ≡ 401)
    × (status (request "GET" "/stream-keys" "" "" "") ≡ 401)
    × (status (request "GET" "/health" "" "" "") ≡ 200)
    × (status (request "PUT" "/health" "" "" "") ≡ 405)
    × (status (request "GET" "/nowhere" "" "" "") ≡ 404)
unfolding program
statuses = (refl, refl, refl, refl, refl, refl)
