-- ===== src/Server/Guarded.antt =====
-- Which requests reach a handler (internal/server/server.go).
use mathlib.Core.List.{Memᴰ}
use rescuestream_api.Prelude.{
  ◌≡◌, ◌⊎◌, inl, inr, refl, sym, subst, String, Option, none, some, List, [], ◌∷◌, ◌++◌, All,
  All-Memᴰ,
}
use rescuestream_api.Handler.Signature.{Verdict, denied, forwarded}
use rescuestream_api.Server.{
  HttpRequest, RouteMatch, HttpHandler, Guard, Server, ServerOption, Route, registered, bare,
  apply_options, public_routes, protected_routes, management_routes, setup_routes, new, auth_routes,
  webhook_routes, health_routes, stream_routes, stream_key_routes, broadcaster_routes,
}
use rescuestream_api.Server.Dispatch.{
  Found, unclean, moved_permanently, found, no_template, no_method, IsFrom, Mux, Reply, handled,
  unauthorized, not_found, method_not_allowed, Served, signed_request, guarded, guarded_by, logged,
  request_id, serve_found, serve,
}

-- The templates of the routes for MediaMTX and the health check.
abbrev pub public_templates : List String
public_templates = "/auth" ∷ "/webhook/ready" ∷ "/webhook/not-ready" ∷ "/health" ∷ []

-- The reply is not a handler's.
abbrev pub IsRefusal : Reply → Type 0
IsRefusal (handled p) = ⊥
IsRefusal (unauthorized n title detail) = Unit
IsRefusal (moved_permanently location) = Unit
IsRefusal not_found = Unit
IsRefusal method_not_allowed = Unit

-- The route is public, or the middleware `m` stands before it.
abbrev pub IsGuarded : {W : Type 0} → Option Guard → Route W → Type 0
IsGuarded m r = Memᴰ r.template public_templates ⊎ ((g : Guard) × (r.guard ≡ some g) × (m ≡ some g))

All-append : {A : Type 0} (P : A → Type 0) (xs ys : List A) → All P xs → All P ys → All P (xs ++ ys)
All-append P [] ys hx hy = hy
All-append P (x ∷ xs) ys hx hy = (hx.0, All-append P xs ys hx.1 hy)

module _ {W : Type 0} where
  registered-IsGuarded :
      (m : Option Guard) (o : Option (HttpHandler W)) (routes : HttpHandler W → List (Route W))
      → ((h : HttpHandler W) → All (IsGuarded m) (routes h))
      → All (IsGuarded m) (registered o routes)
  registered-IsGuarded m none routes each = tt
  registered-IsGuarded m (some h) routes each = each h

  three_parts :
      (m : Option Guard) (a b c : Option (HttpHandler W)) (f g h : HttpHandler W → List (Route W))
      → ((k : HttpHandler W) → All (IsGuarded m) (f k))
      → ((k : HttpHandler W) → All (IsGuarded m) (g k))
      → ((k : HttpHandler W) → All (IsGuarded m) (h k))
      → All (IsGuarded m) (registered a f ++ registered b g ++ registered c h)
  three_parts m a b c f g h all_f all_g all_h =
      All-append (IsGuarded m) (registered a f ++ registered b g) (registered c h)
        (All-append (IsGuarded m) (registered a f) (registered b g)
          (registered-IsGuarded m a f all_f) (registered-IsGuarded m b g all_g))
        (registered-IsGuarded m c h all_h)

  public_routes-IsGuarded : (m : Option Guard) (s : Server W) → All (IsGuarded m) (public_routes s)
  unfolding public_routes
  public_routes-IsGuarded m s =
      three_parts m s.auth_handler s.webhook_handler s.health_handler auth_routes webhook_routes
        health_routes (λ k. (inl (Memᴰ.head refl), tt))
        (λ k.
          (inl (Memᴰ.tail (Memᴰ.head refl)), (inl (Memᴰ.tail (Memᴰ.tail (Memᴰ.head refl))), tt)))
        (λ k. (inl (Memᴰ.tail (Memᴰ.tail (Memᴰ.tail (Memᴰ.head refl)))), tt))

  management_routes-IsGuarded :
      (m : Option Guard) (s : Server W) → All (IsGuarded m) (management_routes m s)
  unfolding protected_routes
  management_routes-IsGuarded none s = tt
  management_routes-IsGuarded (some m) s =
      three_parts (some m) s.stream_handler s.stream_key_handler s.broadcaster_handler
        (stream_routes m) (stream_key_routes m) (broadcaster_routes m)
        (λ k. (inr (m, refl, refl), (inr (m, refl, refl), tt)))
        (λ k. (inr (m, refl, refl), (inr (m, refl, refl), tt)))
        (λ k. (inr (m, refl, refl), (inr (m, refl, refl), tt)))

  setup_routes-IsGuarded : (s : Server W) → All (IsGuarded s.auth_middleware) (setup_routes s)
  unfolding setup_routes
  setup_routes-IsGuarded s =
      All-append (IsGuarded s.auth_middleware) (public_routes s)
        (management_routes s.auth_middleware s) (public_routes-IsGuarded s.auth_middleware s)
        (management_routes-IsGuarded s.auth_middleware s)

  -- No handler has run: the reply is mux's or the middleware's own, and the world is as it was.
  abbrev pub Refused : W → Served × W → Type 0
  Refused w (served, w') = IsRefusal served.reply × (w' ≡ w)

  -- A public route was found, or no handler ran, or the server's middleware let the request through.
  abbrev pub Passed : Option Guard → HttpRequest → W → Found W → Served × W → Type 0
  Passed m r w f out =
      ((x : Route W) × (id : String) × (f ≡ found x id) × Memᴰ x.template public_templates)
      ⊎ Refused w out
      ⊎ ((g : Guard) × (key : String) × (m ≡ some g) × (g (signed_request r) ≡ forwarded key))

  guarded-Passed :
      (m : Option Guard) (fresh_id : String) (r : HttpRequest) (w : W) (x : Route W) (id : String)
      (g : Guard)
      → m ≡ some g
      → (v : Verdict) → g (signed_request r) ≡ v
      → Refused w (
          logged
            (request_id fresh_id r)
            (guarded_by v x.handler r (record { id = id; template = x.template }) w))
        ⊎ ((key : String) × (v ≡ forwarded key))
  guarded-Passed m fresh_id r w x id g same (denied n title detail) h = inl (tt, refl)
  guarded-Passed m fresh_id r w x id g same (forwarded key) h = inr (key, refl)

  found-Passed :
      (m : Option Guard) (fresh_id : String) (r : HttpRequest) (w : W) (x : Route W) (id : String)
      → IsGuarded m x
      → Passed m r w (found x id) (serve_found fresh_id r (found x id) w)
  found-Passed m fresh_id r w x id (inl public) = inl (x, id, refl, public)
  found-Passed m fresh_id r w x id (inr (g, own, same)) =
      let at : RouteMatch = record { id = id; template = x.template } in
      let behind_g = guarded-Passed m fresh_id r w x id g same (g (signed_request r)) refl in
      elim behind_g [
        | inl refused ↦ inr (
            inl (
              subst (λ o. Refused w (logged (request_id fresh_id r) (guarded o x.handler r at w)))
                (sym own) refused))
        | inr (key, let_through) ↦ inr (inr (g, key, same, let_through))
      ]

  serve_found-Passed :
      (m : Option Guard) (routes : List (Route W)) (fresh_id : String) (r : HttpRequest) (w : W)
      (f : Found W)
      → All (IsGuarded m) routes
      → IsFrom routes r.method f
      → Passed m r w f (serve_found fresh_id r f w)
  serve_found-Passed m routes fresh_id r w (found x id) all (from, _) =
      found-Passed m fresh_id r w x id (All-Memᴰ (IsGuarded m) routes all from)
  serve_found-Passed m routes fresh_id r w (unclean path) all from = inr (inl (tt, refl))
  serve_found-Passed m routes fresh_id r w no_template all from = inr (inl (tt, refl))
  serve_found-Passed m routes fresh_id r w no_method all from = inr (inl (tt, refl))

  -- Whatever options a server is made with, a request reaches a handler only by a public route or
  -- if the server's authentication middleware lets it through; any other request is answered by mux
  -- or by the middleware, and changes nothing.
  pub serve-Passed :
      (opts : List (ServerOption W)) (mux : Mux W) (fresh_id : String) (r : HttpRequest) (w : W)
      → Passed
          (apply_options opts bare).auth_middleware
          r
          w
          (mux.match (new opts) r.method r.path)
          (serve mux (new opts) fresh_id r w)
  unfolding serve new
  serve-Passed opts mux fresh_id r w =
      let s = apply_options opts bare in
      serve_found-Passed s.auth_middleware (setup_routes s) fresh_id r w _
        (setup_routes-IsGuarded s) (mux.match_lem (setup_routes s) r.method r.path)
