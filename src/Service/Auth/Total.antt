-- ===== src/Service/Auth/Total.antt =====
-- While the database answers, `Authenticate` of internal/service/auth.go answers too.
use rescuestream_api.Prelude.{
  ◌≡◌, refl, sym, subst, ap, String, Bool, true, false, none, select, ◌==◌, str_eq, if◌then◌else◌,
  head?, Option-cases, inl, inr,
}
use rescuestream_api.Domain.{Time, StreamKeyStatus, StreamKey, Stream, is_past}
use rescuestream_api.Errors.{
  Error, Result, ok, err, Action, pure, fail, wrap, errors_is, not_found, domain, wrapping,
}
use rescuestream_api.Store.{Tables, update_keys, has_nul}
use rescuestream_api.Env.{Env}
use rescuestream_api.Env.Rules.{ok≢err}
use rescuestream_api.Env.Healthy.{
  Gives, run_ok, handle_ok, handle_err, query_some, query_none, text_some, text_none, bind_Gives,
  bind_Gives_err, attempt-Gives, pure-Gives, pure_after, begin_Gives,
}
use rescuestream_api.Database.StreamKeyRepo.{select_by_key_value, set_last_used}
use rescuestream_api.Database.StreamRepo.{is_active_of_key}
use rescuestream_api.Service.Auth.{
  AuthRequest, AuthResult, allow, reject, shown_key, expire, brief, lookup_error,
  get_and_lock_stream_key, get_active_stream_by_key_id, mark_expired, accept_key, check_unused,
  check_key, check, authenticate,
}

module _ (e : Env) where
  open e use {World, tables, healthy}

  -- The call comes to a value.
  abbrev pub Total : {A : Type 0} → Action World A → World → Type 0
  Total {A} m w = (a : A) × (t : Tables) × Gives e m w (ok a) t

  module _ (now db_now : Time) (key : StreamKey) (w : World) (up : healthy w ≡ true) where
    accept_key-Total : Total (accept_key e db_now key) w
    unfolding accept_key
    accept_key-Total =
        let c =
          handle_ok e ok _ _ w
            (run_ok e (update_keys (λ k. k.id == key.id) (set_last_used db_now)) w up refl) in
        (_, _, bind_Gives e _ _ w c (pure_after e _ c))

    mark_expired-Total : Total (mark_expired e key) w
    unfolding mark_expired
    mark_expired-Total =
        let c =
          handle_ok e ok _ _ w (run_ok e (update_keys (λ k. k.id == key.id) expire) w up refl) in
        (_, _, bind_Gives e _ _ w c (pure_after e _ c))

    Searched-Total :
        (r : Result Stream)
        → (errors_is_not : (x : Error) → r ≡ err x → errors_is x not_found ≡ true)
        → Total
            (elim r as (λ _. Action World AuthResult) [
              | ok stream ↦ pure (reject "stream key already in use")
              | err x ↦
                  if errors_is x not_found
                  then accept_key e db_now key
                  else fail (wrap "failed to check active stream" x)
            ])
            w
    Searched-Total (ok s) h = (_, _, pure-Gives e w up _)
    Searched-Total (err x) h =
        subst
          (λ (b : Bool).
            Total
              (if b then accept_key e db_now key else fail (wrap "failed to check active stream" x))
              w)
          (sym (h x refl)) accept_key-Total

  -- The query for an active stream answers: with a stream, or ErrNotFound.
  abbrev Searched : Action World Stream → World → Type 0
  Searched m w =
      (r : Result Stream) × Gives e m w r (tables w)
      × ((x : Error) → r ≡ err x → errors_is x not_found ≡ true)

  get_active_stream-Searched :
      (key : StreamKey) (w : World)
      → healthy w ≡ true
      → Searched (get_active_stream_by_key_id e key.id) w
  unfolding get_active_stream_by_key_id
  get_active_stream-Searched key w up =
      let rows = λ (t : Tables). select (is_active_of_key key.id) t.streams in
      elim (Option-cases (head? (rows (tables w)))) [
        | inl empty ↦
            let c = handle_err e ok lookup_error _ w (query_none e rows w up empty) in
            (
              err (domain not_found),
              bind_Gives_err e _ _ w c,
              λ x h.
                  ap
                    (λ (r : Result Stream). elim r as (λ _. Bool) [
                      | ok s ↦ true
                      | err y ↦ errors_is y not_found
                    ])
                    (sym h),
            )
        | inr (row, found) ↦
            let c = handle_ok e ok lookup_error _ w (query_some e rows w up found) in
            (
              ok (brief row),
              bind_Gives e _ _ w c (pure_after e (brief row) c),
              λ x h. absurd (ok≢err h),
            )
      ]

  check_unused-Total :
      (db_now : Time) (key : StreamKey) (w : World)
      → healthy w ≡ true
      → Total (check_unused e db_now key) w
  unfolding check_unused
  check_unused-Total db_now key w up =
      let (r, c, missing) = get_active_stream-Searched key w up in
      let tried = attempt-Gives e (get_active_stream_by_key_id e key.id) w c in
      let (a, t, d) = Searched-Total db_now db_now key _ tried.up r missing in
      (a, t, bind_Gives e _ _ w tried d)

  check_key-Total :
      (now db_now : Time) (key : StreamKey) (w : World)
      → healthy w ≡ true
      → Total (check_key e now db_now key) w
  unfolding check_key
  check_key-Total now db_now key w up = by_status key.status
    where
      by_test : (b : Bool) → Total (if b then mark_expired e key else check_unused e db_now key) w
      by_test true = mark_expired-Total now db_now key w up
      by_test false = check_unused-Total db_now key w up

      by_status :
          (s : StreamKeyStatus)
          → Total
              (elim s as (λ _. Action World AuthResult) [
                | StreamKeyStatus.active ↦
                    if is_past now key.expires_at
                    then mark_expired e key
                    else check_unused e db_now key
                | StreamKeyStatus.revoked ↦ pure (reject "stream key revoked")
                | StreamKeyStatus.expired ↦ pure (reject "stream key expired")
              ])
              w
      by_status StreamKeyStatus.revoked = (_, _, pure-Gives e w up _)
      by_status StreamKeyStatus.expired = (_, _, pure-Gives e w up _)
      by_status StreamKeyStatus.active = by_test (is_past now key.expires_at)

  check-Total :
      (now db_now : Time) (value : String) (w : World)
      → healthy w ≡ true
      → has_nul value ≡ false
      → Total (check e now db_now value) w
  unfolding check get_and_lock_stream_key
  check-Total now db_now value w up clean =
      elim (Option-cases (head? (select_by_key_value value (tables w)))) [
        | inl empty ↦
            let c =
              handle_err e ok lookup_error _ w
                (text_none e (select_by_key_value value) w up value clean empty) in
            let tried = attempt-Gives e _ w c in
            (_, _, bind_Gives e _ _ w tried (pure_after e _ tried))
        | inr (key, found) ↦
            let c =
              handle_ok e ok lookup_error _ w
                (text_some e (select_by_key_value value) w up value clean found) in
            let tried = attempt-Gives e _ w c in
            let (a, t, d) = check_key-Total now db_now key _ tried.up in
            (a, t, bind_Gives e _ _ w tried d)
      ]

-- While the database can be reached, a request that shows a key without the character U+0000, which
-- PostgreSQL refuses in a text, gets an answer and does not fail.
pub authenticate-Total :
    (e : Env) (now db_now : Time) (req : AuthRequest) (w : e.World)
    → e.healthy w ≡ true
    → has_nul (shown_key req) ≡ false
    → Total e (authenticate e now db_now req) w
unfolding authenticate
authenticate-Total e now db_now req w up clean =
    by_action (str_eq req.action "publish") (str_eq (shown_key req) "")
  where
    by_action :
        (publish missing : Bool)
        → Total e
            (if publish
              then (if missing
                  then pure (reject "missing stream key")
                  else wrapping "authentication transaction failed"
                      (e.begin_func (check e now db_now (shown_key req))))
              else pure (allow none "non-publish action allowed"))
            w
    by_action false missing = (_, _, pure-Gives e w up _)
    by_action true true = (_, _, pure-Gives e w up _)
    by_action true false =
        let (a, t, c) =
          begin_Gives e (check e now db_now (shown_key req)) w up
            (λ w₁ same up₁. check-Total e now db_now (shown_key req) w₁ up₁ clean) in
        (a, t, handle_ok e ok _ _ w c)
