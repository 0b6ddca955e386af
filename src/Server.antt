-- ===== src/Server.antt =====
-- internal/server/server.go: the server's handlers, its options and its routes.
pub mod Dispatch
pub mod Guarded
use rescuestream_api.Prelude.{String, Option, none, some, List, [], ◌∷◌, ◌++◌}
use rescuestream_api.Errors.{Error, Result, ok, err, wrap}
use rescuestream_api.Handler.Http.{Response}
use rescuestream_api.Handler.Payload.{Payload}
use rescuestream_api.Handler.Signature.{SignedRequest, Verdict}

-- A request as net/http gives it; a header that is missing is the empty string.
pub record HttpRequest : Type 0 where
  pub method : String
  pub path : String
  pub request_id : String
  pub api_key : String
  pub signature : String
  pub timestamp : String
  pub body : Result String

-- What mux says of the route that matched: `mux.Vars(r)["id"]`, empty if the template has no
-- variable, and the template of `mux.CurrentRoute(r)`.
pub record RouteMatch : Type 0 where
  pub id : String
  pub template : String

-- `http.Handler`
abbrev pub HttpHandler : Type 0 → Type 0
HttpHandler W = HttpRequest → RouteMatch → W → Response Payload × W

-- What `AuthMiddleware.Authenticate` decides of a request.
abbrev pub Guard : Type 0
Guard = SignedRequest → Verdict

-- A nil field is `none`; the logger and `http.Server` are left out.
pub record Server (W : Type 0) : Type 0 where
  pub auth_middleware : Option Guard
  pub auth_handler : Option (HttpHandler W)
  pub webhook_handler : Option (HttpHandler W)
  pub stream_handler : Option (HttpHandler W)
  pub stream_key_handler : Option (HttpHandler W)
  pub broadcaster_handler : Option (HttpHandler W)
  pub health_handler : Option (HttpHandler W)

-- A route as `Handle(template, handler).Methods(methods...)` registers it, with the middleware of
-- its subrouter.
pub record Route (W : Type 0) : Type 0 where
  pub template : String
  pub methods : List String
  pub guard : Option Guard
  pub handler : HttpHandler W

-- `Option`
abbrev pub ServerOption : Type 0 → Type 0
ServerOption W = Server W → Server W

module _ {W : Type 0} where
  unfoldable pub with_auth_middleware : Guard → ServerOption W
  with_auth_middleware m s = record s { auth_middleware = some m }

  unfoldable pub with_auth_handler : HttpHandler W → ServerOption W
  with_auth_handler h s = record s { auth_handler = some h }

  unfoldable pub with_webhook_handler : HttpHandler W → ServerOption W
  with_webhook_handler h s = record s { webhook_handler = some h }

  unfoldable pub with_stream_handler : HttpHandler W → ServerOption W
  with_stream_handler h s = record s { stream_handler = some h }

  unfoldable pub with_stream_key_handler : HttpHandler W → ServerOption W
  with_stream_key_handler h s = record s { stream_key_handler = some h }

  unfoldable pub with_broadcaster_handler : HttpHandler W → ServerOption W
  with_broadcaster_handler h s = record s { broadcaster_handler = some h }

  unfoldable pub with_health_handler : HttpHandler W → ServerOption W
  with_health_handler h s = record s { health_handler = some h }

  -- `&Server{…}` before the options.
  abbrev pub bare : Server W
  bare = record {
    auth_middleware = none;
    auth_handler = none;
    webhook_handler = none;
    stream_handler = none;
    stream_key_handler = none;
    broadcaster_handler = none;
    health_handler = none;
  }

  -- `for _, opt := range opts { opt(s) }`
  unfoldable pub apply_options : List (ServerOption W) → ServerOption W
  apply_options [] s = s
  apply_options (opt ∷ opts) s = apply_options opts (opt s)

  -- `if handler != nil { … }`, where the routes registered depend on the handler.
  abbrev pub registered : Option (HttpHandler W) → (HttpHandler W → List (Route W)) → List (Route W)
  registered none routes = []
  registered (some h) routes = routes h

  abbrev pub route : Option Guard → String → List String → HttpHandler W → Route W
  route guard template methods h = record {
    template = template;
    methods = methods;
    guard = guard;
    handler = h;
  }

  abbrev pub auth_routes : HttpHandler W → List (Route W)
  auth_routes h = route none "/auth" ("POST" ∷ []) h ∷ []

  abbrev pub webhook_routes : HttpHandler W → List (Route W)
  webhook_routes h =
      route none "/webhook/ready" ("POST" ∷ []) h
      ∷ route none "/webhook/not-ready" ("POST" ∷ []) h
      ∷ []

  abbrev pub health_routes : HttpHandler W → List (Route W)
  health_routes h = route none "/health" ("GET" ∷ []) h ∷ []

  abbrev pub stream_routes : Guard → HttpHandler W → List (Route W)
  stream_routes m h =
      route (some m) "/streams" ("GET" ∷ []) h ∷ route (some m) "/streams/{id}" ("GET" ∷ []) h ∷ []

  abbrev pub stream_key_routes : Guard → HttpHandler W → List (Route W)
  stream_key_routes m h =
      route (some m) "/stream-keys" ("GET" ∷ "POST" ∷ []) h
      ∷ route (some m) "/stream-keys/{id}" ("GET" ∷ "DELETE" ∷ []) h
      ∷ []

  abbrev pub broadcaster_routes : Guard → HttpHandler W → List (Route W)
  broadcaster_routes m h =
      route (some m) "/broadcasters" ("GET" ∷ "POST" ∷ []) h
      ∷ route (some m) "/broadcasters/{id}" ("GET" ∷ "PATCH" ∷ "DELETE" ∷ []) h
      ∷ []

  -- The routes that MediaMTX and health checks use.
  unfoldable pub public_routes : Server W → List (Route W)
  public_routes s =
      registered s.auth_handler auth_routes
      ++ registered s.webhook_handler webhook_routes
      ++ registered s.health_handler health_routes

  -- The routes of the subrouter that uses the middleware `m`.
  unfoldable pub protected_routes : Guard → Server W → List (Route W)
  protected_routes m s =
      registered s.stream_handler (stream_routes m)
      ++ registered s.stream_key_handler (stream_key_routes m)
      ++ registered s.broadcaster_handler (broadcaster_routes m)

  abbrev pub management_routes : Option Guard → Server W → List (Route W)
  management_routes none s = []
  management_routes (some m) s = protected_routes m s

  -- `setupRoutes`, in the order of registration.
  unfoldable pub setup_routes : Server W → List (Route W)
  setup_routes s = public_routes s ++ management_routes s.auth_middleware s

  -- The routes of `New(port, opts...)`.
  unfoldable pub new : List (ServerOption W) → List (Route W)
  new opts = setup_routes (apply_options opts bare)

-- What `ListenAndServe` returns: nil, `http.ErrServerClosed`, or another error.
pub data Listened : Type 0 where
  no_error server_closed : Listened
  listen_failed : Error → Listened

-- `Start`, once `ListenAndServe` has returned.
unfoldable pub start_result : Listened → Result (Unit {0})
start_result no_error = ok tt
start_result server_closed = ok tt
start_result (listen_failed e) = err (wrap "failed to start server" e)
