-- ===== src/Handler/Auth/Answers.antt =====
-- The responses of internal/handler/auth.go to MediaMTX, while the database answers.
use rescuestream_api.Prelude.{
  ◌≡◌, ◌≢◌, ◌↔◌, ◌⊎◌, inl, inr, refl, sym, ap, ◌∙◌, subst, ℕ, Bool, true, false, some,
  if◌then◌else◌, arith,
}
use rescuestream_api.Domain.{Time}
use rescuestream_api.Errors.{Result, ok, err}
use rescuestream_api.Store.{has_nul}
use rescuestream_api.Store.Invariant.{IsConsistent}
use rescuestream_api.Env.{Env}
use rescuestream_api.Service.Auth.{AuthRequest, AuthResult, shown_key, authenticate}
use rescuestream_api.Service.Auth.Total.{authenticate-Total}
use rescuestream_api.Service.Auth.Access.{is_allowed, Usable, authenticate_allowed_iff}
use rescuestream_api.Handler.Http.{post, Response, header, problem, status_of, err_internal_server}
use rescuestream_api.Handler.Auth.{serve_http}

-- The status of a decision.
abbrev decision_status : Bool → ℕ
decision_status allowed = if allowed then 200 else 401

decision_status_iff : (b : Bool) → (decision_status b ≡ 200) ↔ (b ≡ true)
decision_status_iff true = (λ h. refl, λ h. refl)
decision_status_iff false = (λ h. ground arith, λ h. ground arith)

decision_status_cases : (b : Bool) → (decision_status b ≡ 200) ⊎ (decision_status b ≡ 401)
decision_status_cases true = inl refl
decision_status_cases false = inr refl

module _ (e : Env) (now db_now : Time) where
  open e use {World, tables, healthy}

  serve_http-status :
      (req : AuthRequest) (w : World) {r : AuthResult}
      → (authenticate e now db_now req w).0 ≡ ok r
      → status_of (serve_http e now db_now post (some req) w).0 ≡ decision_status r.allowed
  unfolding serve_http
  serve_http-status req w h = by_result (authenticate e now db_now req w).0 _ h
    where
      by_result :
          (a : Result AuthResult) (w' : World) {r : AuthResult}
          → a ≡ ok r
          → status_of (
              (elim a as (λ _. Response (Unit {0}) × World) [
                | ok result ↦ (header (if result.allowed then 200 else 401), w')
                | err x ↦ (problem (err_internal_server "authentication failed"), w')
              ]).0)
            ≡ decision_status r.allowed
      by_result a w' {r} h' =
          subst
            (λ a'.
              status_of (
                (elim a' as (λ _. Response (Unit {0}) × World) [
                  | ok result ↦ (header (if result.allowed then 200 else 401), w')
                  | err x ↦ (problem (err_internal_server "authentication failed"), w')
                ]).0)
              ≡ decision_status r.allowed)
            (sym h') refl

  -- While the database answers and is consistent, MediaMTX gets 200 or 401 to a publish request that
  -- shows a key without the character U+0000, and 200 exactly if the key is stored, valid by `IsValid` and without an active
  -- stream.
  pub serve_http_allows :
      (req : AuthRequest) (w : World)
      → healthy w ≡ true
      → IsConsistent (tables w)
      → req.action ≡ "publish"
      → shown_key req ≢ ""
      → has_nul (shown_key req) ≡ false
      → let status = status_of (serve_http e now db_now post (some req) w).0 in
        ((status ≡ 200) ⊎ (status ≡ 401)) × ((status ≡ 200) ↔ Usable now (tables w) (shown_key req))
  serve_http_allows req w up c publish shown clean =
      let (r, t, g) = authenticate-Total e now db_now req w up clean in
      let same = serve_http-status req w g.result in
      let allowed = ap is_allowed g.result in
      let access = authenticate_allowed_iff e now db_now req w publish shown in
      let statuses = decision_status_iff r.allowed in
      (
        subst (λ s. (s ≡ 200) ⊎ (s ≡ 401)) (sym same) (decision_status_cases r.allowed),
        (
          λ h. access.0 (allowed ∙ statuses.0 (sym same ∙ h)),
          λ u. same ∙ statuses.1 (sym allowed ∙ access.1 up c u),
        ),
      )
