-- ===== src/App/Unsigned.antt =====
-- What a request without a valid signature may do over HTTP: internal/server/server.go,
-- internal/handler/middleware.go and the public handlers.
use mathlib.Core.Bool.{false≢true}
use rescuestream_api.Prelude.{◌≡◌, refl, String, inl, inr, sym, ap, ◌∙◌, subst, Bool, false}
use rescuestream_api.Store.{Tables}
use rescuestream_api.Store.Invariant.{IsConsistent}
use rescuestream_api.Env.{Env}
use rescuestream_api.Handler.KeyStore.{env_get_secret}
use rescuestream_api.Handler.Signature.{Verdict, denied, forwarded}
use rescuestream_api.Handler.Signature.Signed.{Signed, authenticate_forwarded_iff}
use rescuestream_api.Consistency.Rules.{UseRules}
use rescuestream_api.Consistency.Authenticate.{authenticate-Keeps}
use rescuestream_api.Consistency.Requests.{handle_ready-Keeps, handle_not_ready-Keeps}
use rescuestream_api.Consistency.Reach.{
  Step, auth, ready, not_ready, create_key, revoke_key, create_broadcaster, update_broadcaster,
  drop_broadcaster, quiet, Reach, here, next,
}
use rescuestream_api.Consistency.Used.{IsUsed, IsUsed-refl, IsUsed-uses}
use rescuestream_api.Server.{HttpRequest}
use rescuestream_api.Server.Dispatch.{Mux, signed_request}
use rescuestream_api.App.{Libraries, Settings, Inputs, serve_request, auth_middleware}
use rescuestream_api.App.Steps.{IsPublic, Within}
use rescuestream_api.App.Access.{is_forwarded, serve_request-Reach}

module _ (e : Env) (I : Tables → Type 0) (rules : UseRules I) where
  open e use {World, tables}

  public_step-Keeps : {w w' : World} → (s : Step e w w') → IsPublic s → I (tables w) → I (tables w')
  public_step-Keeps (auth now db_now req w) p = authenticate-Keeps e I rules now db_now req w
  public_step-Keeps (ready fresh spare now body w) p =
      handle_ready-Keeps e I rules fresh spare now body w
  public_step-Keeps (not_ready now body w) p = handle_not_ready-Keeps e I rules now body w
  public_step-Keeps (quiet w w' same) p = subst I (sym same)
  public_step-Keeps (create_key fresh spare now random req w) p = absurd p
  public_step-Keeps (revoke_key now db_now id w) p = absurd p
  public_step-Keeps (create_broadcaster fresh spare created updated req w) p = absurd p
  public_step-Keeps (update_broadcaster now id req w) p = absurd p
  public_step-Keeps (drop_broadcaster id w) p = absurd p

  -- A run of public steps needs the rules of those steps alone.
  Within-Keeps :
      (b : Bool) {w w' : World}
      → b ≡ false
      → (r : Reach e w w') → Within b r
      → I (tables w)
      → I (tables w')
  Within-Keeps b untrusted here bound c = c
  Within-Keeps b untrusted (next r s) (bound, inl public) c =
      public_step-Keeps s public (Within-Keeps b untrusted r bound c)
  Within-Keeps b untrusted (next r s) (bound, inr trusted) c =
      absurd (false≢true (sym untrusted ∙ trusted))

module _ (lib : Libraries) (settings : Settings) (i : Inputs) where
  -- The request is signed for its contents with the API secret, in time.
  abbrev pub IsSigned : HttpRequest → Type 0
  IsSigned r =
      Signed lib.parse_int lib.format_int lib.sign (env_get_secret settings.api_secret)
        i.nanoseconds (signed_request r)

module _ (e : Env) (lib : Libraries) (settings : Settings) (i : Inputs) where
  open e use {World, tables}

  not_forwarded : (v : Verdict) → ((k : String) → v ≡ forwarded k → ⊥) → is_forwarded v ≡ false
  not_forwarded (denied n title detail) h = refl
  not_forwarded (forwarded k) h = absurd (h k refl)

  -- An unsigned request leaves what was used of some tables used.
  pub unsigned_request-Keeps :
      (t₀ : Tables) (mux : Mux World) (r : HttpRequest) (w : World)
      → (IsSigned lib settings i r → ⊥)
      → IsUsed t₀ (tables w)
      → IsUsed t₀ (tables (serve_request e lib settings i mux r w).1)
  unsigned_request-Keeps t₀ mux r w unsigned =
      let (run, bound) = serve_request-Reach e lib settings i mux r w in
      let (forwarded_iff, own_key, _) =
        authenticate_forwarded_iff lib.parse_int lib.format_int lib.sign
          (env_get_secret settings.api_secret) i.nanoseconds (signed_request r) in
      Within-Keeps e (IsUsed t₀) (IsUsed-uses t₀) _
        (not_forwarded (auth_middleware e lib settings i (signed_request r))
          (λ k h. unsigned (forwarded_iff.0 (h ∙ ap forwarded (own_key k h)))))
        run bound

  -- A request that is not signed for its contents with the API secret in time leaves consistent
  -- tables consistent, every broadcaster as it was, and the stream keys the same one by one, but for
  -- the times of last use and for active keys that have expired, whatever it asks for and whatever
  -- fails.
  pub unsigned_request-IsUsed :
      (mux : Mux World) (r : HttpRequest) (w : World)
      → (IsSigned lib settings i r → ⊥)
      → IsConsistent (tables w)
      → IsUsed (tables w) (tables (serve_request e lib settings i mux r w).1)
  unsigned_request-IsUsed mux r w unsigned c =
      unsigned_request-Keeps (tables w) mux r w unsigned (IsUsed-refl (tables w) c)
