-- ===== src/Server/Dispatch.antt =====
-- The way of a request through the server: gorilla/mux, the middlewares of
-- internal/handler/middleware.go and the handler.
use mathlib.Core.List.{Memᴰ}
use rescuestream_api.Prelude.{ℕ, String, Option, none, some, List, str_eq, if◌then◌else◌}
use rescuestream_api.Handler.Http.{Response, status_of}
use rescuestream_api.Handler.Payload.{Payload}
use rescuestream_api.Handler.Signature.{SignedRequest, Verdict, denied, forwarded}
use rescuestream_api.Server.{HttpRequest, RouteMatch, HttpHandler, Guard, Route}

-- What mux finds for a request: that the path is not clean, with the clean one, to which it
-- redirects; or a route with the value of its variable `id`, or that no template fits the path, or
-- that none of those that fit takes the method.
pub data Found (W : Type 0) : Type 0 where
  unclean : String → Found W
  found : Route W → String → Found W
  no_template : Found W
  no_method : Found W

abbrev pub IsFrom : {W : Type 0} → List (Route W) → String → Found W → Type 0
IsFrom routes method (found r id) = Memᴰ r routes × Memᴰ method r.methods
IsFrom routes method (unclean path) = Unit
IsFrom routes method no_template = Unit
IsFrom routes method no_method = Unit

-- gorilla/mux: a route that is found was registered, and takes the request's method.
pub record Mux (W : Type 0) : Type 0 where
  pub match : List (Route W) → String → String → Found W
  pub match_lem :
      (routes : List (Route W)) (method path : String)
      → IsFrom routes method (match routes method path)

-- What the client gets: a handler's response, a problem that the authentication middleware writes
-- (status, title, detail), or mux's own 301, 404 and 405.
pub data Reply : Type 0 where
  handled : Response Payload → Reply
  unauthorized : ℕ → String → String → Reply
  moved_permanently : String → Reply
  not_found : Reply
  method_not_allowed : Reply

abbrev pub reply_status : Reply → ℕ
reply_status (handled r) = status_of r
reply_status (unauthorized n title detail) = n
reply_status (moved_permanently location) = 301
reply_status not_found = 404
reply_status method_not_allowed = 405

-- A reply, the header X-Request-ID that it carries, and the status that is logged, if any.
pub record Served : Type 0 where
  pub reply : Reply
  pub request_id : Option String
  pub logged_status : Option ℕ

abbrev pub signed_request : HttpRequest → SignedRequest
signed_request r = record {
  method = r.method;
  path = r.path;
  api_key = r.api_key;
  signature = r.signature;
  timestamp = r.timestamp;
  body = r.body;
}

-- `RequestIDMiddleware`: the request's ID, or the new one.
abbrev pub request_id : String → HttpRequest → String
request_id fresh_id r = if str_eq r.request_id "" then fresh_id else r.request_id

abbrev pub unmatched : Reply → Served
unmatched reply = record { reply = reply; request_id = none; logged_status = none }

module _ {W : Type 0} where
  -- What the middleware does on its verdict.
  abbrev pub guarded_by : Verdict → HttpHandler W → HttpRequest → RouteMatch → W → Reply × W
  guarded_by (denied n title detail) h r m w = (unauthorized n title detail, w)
  guarded_by (forwarded key) h r m w = let (p, w') = h r m w in (handled p, w')

  -- A handler behind the middleware of its subrouter.
  abbrev pub guarded : Option Guard → HttpHandler W → HttpRequest → RouteMatch → W → Reply × W
  guarded none h r m w = let (p, w') = h r m w in (handled p, w')
  guarded (some guard) h r m w = guarded_by (guard (signed_request r)) h r m w

  -- `LoggingMiddleware` logs the status that its `responseWriter` captured.
  abbrev pub logged : String → Reply × W → Served × W
  logged id (reply, w) =
      (record { reply = reply; request_id = some id; logged_status = some (reply_status reply) }, w)

  -- The routes' middlewares run for the routes that match alone.
  abbrev pub serve_found : String → HttpRequest → Found W → W → Served × W
  serve_found fresh_id r (found route id) w =
      logged (request_id fresh_id r)
        (guarded route.guard route.handler r (record { id = id; template = route.template }) w)
  serve_found fresh_id r (unclean path) w = (unmatched (moved_permanently path), w)
  serve_found fresh_id r no_template w = (unmatched not_found, w)
  serve_found fresh_id r no_method w = (unmatched method_not_allowed, w)

  -- `fresh_id` is the text of a new UUID.
  unfoldable pub serve : Mux W → List (Route W) → String → HttpRequest → W → Served × W
  serve mux routes fresh_id r w = serve_found fresh_id r (mux.match routes r.method r.path) w
