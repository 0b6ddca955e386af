-- ===== src/Service/Auth/Decisions.antt =====
-- `Authenticate` of internal/service/auth.go from the check of the key's status on.
use mathlib.Core.Bool.{false≢true}
use rescuestream_api.Prelude.{
  ◌≡◌, ◌≢◌, refl, sym, ◌∙◌, ap, subst, String, Bool, true, false, Option, none, select, str_eq,
  eq_iff, if◌then◌else◌, any_of_head, Bool-cases, ◌⊎◌, inl, inr,
}
use rescuestream_api.Domain.{Time, StreamKeyStatus, StreamKey, Stream, is_past}
use rescuestream_api.Errors.{
  Error, Result, ok, err, Action, pure, fail, wrap, handle, attempt, errors_is, not_found, ◌>>=◌,
  no_rows, domain,
}
use rescuestream_api.Store.{StreamRow, Tables, query_row}
use rescuestream_api.Env.{Env, Foreign}
use rescuestream_api.Env.Reads.{Looked, handle-Looked}
use rescuestream_api.Env.Rules.{bind_rule, run-eq-ok}
use rescuestream_api.Database.StreamRepo.{is_active_of_key}
use rescuestream_api.Consistency.Base.{ok_pair}
use rescuestream_api.Service.Auth.{
  AuthResult, reject, brief, lookup_error, get_active_stream_by_key_id, mark_expired, accept_key,
  check_unused, check_key,
}
use rescuestream_api.Service.Auth.Outcome.{
  Decision, revoked, expired, expires, busy, granted, Done, in_use,
}

pub if-Done :
    {W : Type 0} (P : AuthResult → W → Type 0) (b : Bool) (m k : Action W AuthResult) (w : W)
    → (b ≡ true → Done P (m w))
    → (b ≡ false → Done P (k w))
    → Done P ((if b then m else k) w)
if-Done P true m k w f g = f refl
if-Done P false m k w f g = g refl

-- `lookup_error` gives ErrNotFound only if no row was selected.
pub not_found_of_lookup :
    {A : Type 0} {o : Option A} (y : Error)
    → ((o ≡ none) × (y ≡ lookup_error no_rows)) ⊎ ((x : Error) × (y ≡ lookup_error x) × Foreign x)
    → errors_is y not_found ≡ true
    → o ≡ none
not_found_of_lookup y (inl (empty, _)) h = empty
not_found_of_lookup y (inr (x, e, (other, foreign))) h = absurd (
    false≢true (
      sym (foreign not_found)
      ∙ ap (λ (z : Error). errors_is z not_found)
          (sym (e ∙ ap (λ (b : Bool). if b then domain not_found else x) other))
      ∙ h))

pub ne_test : (s : String) → s ≢ "" → str_eq s "" ≡ false
ne_test s ne = elim (Bool-cases (str_eq s "")) [
  | inl same ↦ absurd (ne ((eq_iff s "").0 same))
  | inr other ↦ other
]

module _ (e : Env) (now db_now : Time) where
  open e use {World, tables}

  accept_key-Decision :
      (key : StreamKey) (w : World)
      → key.status ≡ StreamKeyStatus.active
      → is_past now key.expires_at ≡ false
      → in_use (tables w) key ≡ false
      → Done (λ r w'. Decision now db_now (tables w) key r (tables w')) (accept_key e db_now key w)
  unfolding accept_key
  accept_key-Decision key w active alive free =
      bind_rule (Done (λ r w'. Decision now db_now (tables w) key r (tables w'))) _ _ w
        (λ n h. granted active alive free refl (sym (ok_pair (run-eq-ok e _ w _ h)).1)) (λ x h. tt)

  mark_expired-Decision :
      (key : StreamKey) (w : World)
      → key.status ≡ StreamKeyStatus.active
      → is_past now key.expires_at ≡ true
      → Done (λ r w'. Decision now db_now (tables w) key r (tables w')) (mark_expired e key w)
  unfolding mark_expired
  mark_expired-Decision key w active past =
      bind_rule (Done (λ r w'. Decision now db_now (tables w) key r (tables w'))) _ _ w
        (λ n h. expires active past refl (sym (ok_pair (run-eq-ok e _ w _ h)).1)) (λ x h. tt)

  -- What the query for the key's active stream tells.
  Searched : Tables → StreamKey → Result Stream × World → Type 0
  Searched t key (ok s, w') = (in_use t key ≡ true) × (tables w' ≡ t)
  Searched t key (err y, w') =
      (tables w' ≡ t) × (errors_is y not_found ≡ true → in_use t key ≡ false)

  get_active_stream-Searched :
      (key : StreamKey) (w : World)
      → Searched (tables w) key (get_active_stream_by_key_id e key.id w)
  unfolding get_active_stream_by_key_id Searched
  get_active_stream-Searched key w =
      let rows = λ (t : Tables). select (is_active_of_key key.id) t.streams in
      let answer = handle ok lookup_error (e.run (query_row rows)) in
      let looked = handle-Looked e rows w lookup_error in
      bind_rule (Searched (tables w) key) answer (λ row. pure (brief row)) w
        (λ row h.
          let (found, same) =
            subst
              (λ (r : Result StreamRow).
                Looked lookup_error rows (tables w) r (tables (answer w).1))
              h looked in
          (any_of_head _ (tables w).streams _ found, same))
        (λ y h.
          let (same, why) =
            subst
              (λ (r : Result StreamRow).
                Looked lookup_error rows (tables w) r (tables (answer w).1))
              h looked in
          (same, λ missing. any_of_head _ (tables w).streams _ (not_found_of_lookup y why missing)))

  -- The last decision, on what the query has found.
  Searched-Decision :
      (key : StreamKey) (w w' : World) (r : Result Stream)
      → key.status ≡ StreamKeyStatus.active
      → is_past now key.expires_at ≡ false
      → Searched (tables w) key (r, w')
      → Done
          (λ r w'. Decision now db_now (tables w) key r (tables w'))
          ((elim r as (λ _. Action World AuthResult) [
            | ok stream ↦ pure (reject "stream key already in use")
            | err x ↦
                if errors_is x not_found
                then accept_key e db_now key
                else fail (wrap "failed to check active stream" x)
          ])
            w')
  unfolding Searched
  Searched-Decision key w w' (ok s) active alive (used, same) = busy active alive used refl same
  Searched-Decision key w w' (err x) active alive (same, free) =
      if-Done (λ r w'. Decision now db_now (tables w) key r (tables w')) (errors_is x not_found) _ _
        w'
        (λ missing.
          subst
            (λ (t : Tables).
              Done (λ r w'. Decision now db_now t key r (tables w')) (accept_key e db_now key w'))
            same
            (accept_key-Decision key w' active alive
              (subst (λ (t : Tables). in_use t key ≡ false) (sym same) (free missing))))
        (λ other. tt)

  check_unused-Decision :
      (key : StreamKey) (w : World)
      → key.status ≡ StreamKeyStatus.active
      → is_past now key.expires_at ≡ false
      → Done
          (λ r w'. Decision now db_now (tables w) key r (tables w'))
          (check_unused e db_now key w)
  unfolding check_unused attempt ◌>>=◌
  check_unused-Decision key w active alive =
      Searched-Decision key w _ _ active alive (get_active_stream-Searched key w)

  pub check_key-Decision :
      (key : StreamKey) (w : World)
      → Done
          (λ r w'. Decision now db_now (tables w) key r (tables w'))
          (check_key e now db_now key w)
  unfolding check_key
  check_key-Decision key w = by_status key.status refl
    where
      by_status :
          (s : StreamKeyStatus)
          → key.status ≡ s
          → Done
              (λ r w'. Decision now db_now (tables w) key r (tables w'))
              ((elim s as (λ _. Action World AuthResult) [
                | StreamKeyStatus.active ↦
                    if is_past now key.expires_at
                    then mark_expired e key
                    else check_unused e db_now key
                | StreamKeyStatus.revoked ↦ pure (reject "stream key revoked")
                | StreamKeyStatus.expired ↦ pure (reject "stream key expired")
              ])
                w)
      by_status StreamKeyStatus.revoked h = revoked h refl refl
      by_status StreamKeyStatus.expired h = expired h refl refl
      by_status StreamKeyStatus.active h =
          if-Done (λ r w'. Decision now db_now (tables w) key r (tables w'))
            (is_past now key.expires_at) _ _ w (mark_expired-Decision key w h)
            (check_unused-Decision key w h)
