-- ===== src/App/Access.antt =====
-- What a request over HTTP may do: cmd/rescuestream-api/main.go, internal/server/server.go and the
-- handlers together.
use rescuestream_api.Prelude.{
  ◌≡◌, ◌⊎◌, inl, inr, refl, sym, subst, Bool, true, false, String, none, some, List, All, All-Memᴰ,
}
use rescuestream_api.Env.{Env}
use rescuestream_api.Handler.Signature.{Verdict, denied, forwarded}
use rescuestream_api.Consistency.Reach.{Reach, here}
use rescuestream_api.Server.{
  HttpRequest, RouteMatch, HttpHandler, Guard, Route, new, apply_options, setup_routes,
  public_routes, protected_routes, with_auth_middleware, with_auth_handler, with_webhook_handler,
  with_stream_handler, with_stream_key_handler, with_broadcaster_handler, with_health_handler,
}
use rescuestream_api.Server.Dispatch.{
  Found, unclean, found, no_template, no_method, IsFrom, Mux, signed_request, guarded, guarded_by,
  serve_found, serve,
}
use rescuestream_api.App.{
  Libraries, Settings, Inputs, options, auth_middleware, serve_request, auth_handler,
  webhook_handler, stream_handler, stream_key_handler, broadcaster_handler, health_handler,
}
use rescuestream_api.App.Steps.{Within, Within-widen, Leads}
use rescuestream_api.App.Handlers.{
  auth-Leads, webhook-Leads, stream-Leads, key-Leads, owner-Leads, health-Leads,
}

-- The middleware passes the request on.
abbrev pub is_forwarded : Verdict → Bool
is_forwarded (denied n title detail) = false
is_forwarded (forwarded key) = true

module _ (e : Env) (lib : Libraries) (settings : Settings) (i : Inputs) where
  open e use {World}

  -- A handler's requests are runs within the bounds.
  abbrev HandlerLeads : Bool → HttpHandler World → Type 0
  HandlerLeads trusted h = (r : HttpRequest) (m : RouteMatch) → Leads e trusted (h r m)

  -- A route without the middleware leads to public steps alone.
  abbrev RouteLeads : Guard → Route World → Type 0
  RouteLeads g x =
      ((x.guard ≡ none) × HandlerLeads false x.handler)
      ⊎ ((x.guard ≡ some g) × HandlerLeads true x.handler)

  auth_handler-Leads : HandlerLeads false (auth_handler e lib settings i)
  unfolding auth_handler
  auth_handler-Leads r m = auth-Leads e i.now i.db_now _ _

  webhook_handler-Leads : HandlerLeads false (webhook_handler e lib settings i)
  unfolding webhook_handler
  webhook_handler-Leads r m =
      webhook-Leads e lib.has_suffix i.fresh i.spare i.now i.db_now _ _ _ _ _

  stream_handler-Leads : HandlerLeads true (stream_handler e lib settings i)
  unfolding stream_handler
  stream_handler-Leads r m = stream-Leads e settings.public_url lib.parse_uuid _ _

  stream_key_handler-Leads : HandlerLeads true (stream_key_handler e lib settings i)
  unfolding stream_key_handler
  stream_key_handler-Leads r m = key-Leads e lib.parse_uuid lib.parse_time _ _ _ _

  broadcaster_handler-Leads : HandlerLeads true (broadcaster_handler e lib settings i)
  unfolding broadcaster_handler
  broadcaster_handler-Leads r m = owner-Leads e lib.parse_uuid _ _

  health_handler-Leads : HandlerLeads false (health_handler e lib settings i)
  unfolding health_handler
  health_handler-Leads r m = health-Leads e _

  -- Every route that `main` registers.
  routes-Leads :
      All (RouteLeads (auth_middleware e lib settings i)) (new (options e lib settings i))
  unfolding new apply_options setup_routes public_routes protected_routes with_auth_middleware
      with_auth_handler with_webhook_handler with_stream_handler with_stream_key_handler
      with_broadcaster_handler with_health_handler
  routes-Leads = (
    inl (refl, auth_handler-Leads),
    (
      inl (refl, webhook_handler-Leads),
      (
        inl (refl, webhook_handler-Leads),
        (
          inl (refl, health_handler-Leads),
          (
            inr (refl, stream_handler-Leads),
            (
              inr (refl, stream_handler-Leads),
              (
                inr (refl, stream_key_handler-Leads),
                (
                  inr (refl, stream_key_handler-Leads),
                  (
                    inr (refl, broadcaster_handler-Leads),
                    (inr (refl, broadcaster_handler-Leads), tt),
                  ),
                ),
              ),
            ),
          ),
        ),
      ),
    ),
  )

  -- What the server does with the route that it found.
  guarded-Leads :
      (r : HttpRequest) (m : RouteMatch) (w : World) (h : HttpHandler World)
      → HandlerLeads true h
      → (v : Verdict) → (run : Reach e w (guarded_by v h r m w).1) × Within (is_forwarded v) run
  guarded-Leads r m w h lead (denied n title detail) = (here, tt)
  guarded-Leads r m w h lead (forwarded key) = lead r m w

  route-Leads :
      (g : Guard) (fresh_id : String) (r : HttpRequest) (w : World) (x : Route World) (id : String)
      → RouteLeads g x
      → (run : Reach e w (serve_found fresh_id r (found x id) w).1) × Within
          (is_forwarded (g (signed_request r)))
          run
  route-Leads g fresh_id r w x id (inl (open_route, lead)) =
      let at : RouteMatch = record { id = id; template = x.template } in
      let (run, bound) = lead r at w in
      subst
        (λ o.
          (run : Reach e w (guarded o x.handler r at w).1) × Within
            (is_forwarded (g (signed_request r))) run)
        (sym open_route) (run, Within-widen e _ run bound)
  route-Leads g fresh_id r w x id (inr (own, lead)) =
      let at : RouteMatch = record { id = id; template = x.template } in
      subst
        (λ o.
          (run : Reach e w (guarded o x.handler r at w).1) × Within
            (is_forwarded (g (signed_request r))) run)
        (sym own) (guarded-Leads r at w x.handler lead (g (signed_request r)))

  found-Leads :
      (g : Guard) (routes : List (Route World)) (fresh_id : String) (r : HttpRequest) (w : World)
      (f : Found World)
      → All (RouteLeads g) routes
      → IsFrom routes r.method f
      → (run : Reach e w (serve_found fresh_id r f w).1) × Within
          (is_forwarded (g (signed_request r)))
          run
  found-Leads g routes fresh_id r w (found x id) all (from, _) =
      route-Leads g fresh_id r w x id (All-Memᴰ (RouteLeads g) routes all from)
  found-Leads g routes fresh_id r w (unclean path) all from = (here, tt)
  found-Leads g routes fresh_id r w no_template all from = (here, tt)
  found-Leads g routes fresh_id r w no_method all from = (here, tt)

  -- Whatever a request over HTTP is and whatever fails while it is served, it changes the tables as
  -- a run of the services' requests does, and one that writes more than an authentication or a
  -- webhook of MediaMTX does only if the signature middleware passes the request on.
  pub serve_request-Reach :
      (mux : Mux World) (r : HttpRequest) (w : World)
      → (run : Reach e w (serve_request e lib settings i mux r w).1) × Within
          (is_forwarded (auth_middleware e lib settings i (signed_request r)))
          run
  unfolding serve_request serve
  serve_request-Reach mux r w =
      found-Leads (auth_middleware e lib settings i) (new (options e lib settings i)) i.request_id r
        w _ routes-Leads (mux.match_lem (new (options e lib settings i)) r.method r.path)
