-- ===== src/Consistency/Authenticate.antt =====
-- `AuthService.Authenticate` of internal/service/auth.go and the consistency of the tables.
use rescuestream_api.Prelude.{
  ◌≡◌, refl, sym, ap, ◌∙◌, subst, String, true, All, All-imp, str_eq, ◌==◌, if◌then◌else◌,
}
use rescuestream_api.Domain.{Time, StreamKeyStatus, StreamKey, is_past}
use rescuestream_api.Errors.{
  Result, ok, err, Action, pure, fail, attempt, handle, wrap, wrapping, ◌>>=◌, errors_is, not_found,
}
use rescuestream_api.Store.{Tables, update_keys}
use rescuestream_api.Env.{Env}
use rescuestream_api.Env.Reads.{Looked, handle-Looked_text}
use rescuestream_api.Database.StreamKeyRepo.{select_by_key_value}
use rescuestream_api.Service.Auth.{
  expire, get_and_lock_stream_key, get_active_stream_by_key_id, mark_expired, accept_key,
  check_unused, check_key, check, authenticate, AuthRequest, AuthResult, reject, shown_key,
  lookup_error,
}
use rescuestream_api.Consistency.Base.{query_row-Preserves, ok_pair}
use rescuestream_api.Consistency.Keys.{only_with_id}
use rescuestream_api.Consistency.Rules.{UseRules, AllActive}
use rescuestream_api.Consistency.Actions.{
  Keeps, run-Keeps, if-Keeps_at, handle-Keeps, attempt-Keeps, run-Keeps_at, begin-Keeps, if-Keeps,
  >>=-Keeps, >>=-Keeps_at,
}

module _ (e : Env) (I : Tables → Type 0) (rules : UseRules I) where
  open e use {World, tables, run}

  expired_left :
      (key : StreamKey) (w : World)
      → I (tables w)
      → AllActive key.id (tables w).stream_keys
      → I (
          tables
            (wrapping "failed to update expired status"
              (run (update_keys (λ k. k.id == key.id) expire))
              w).1)
  unfolding handle
  expired_left key w c live =
      run-Keeps_at e I (update_keys (λ k. k.id == key.id) expire) w
        (λ a t' h. subst I (ok_pair h).1 (rules.key_expired key.id (tables w) live c)) c

  accept_key-Keeps : (db_now : Time) (key : StreamKey) → Keeps e I (accept_key e db_now key)
  unfolding accept_key
  accept_key-Keeps db_now key =
      >>=-Keeps e I _ _ (handle-Keeps e I _ _ _ (run-Keeps e I _ (rules.key_used key.id db_now)))
        (λ n w c. c)

  check_unused-Keeps : (db_now : Time) (key : StreamKey) → Keeps e I (check_unused e db_now key)
  unfolding check_unused get_active_stream_by_key_id
  check_unused-Keeps db_now key =
      >>=-Keeps e I _ _
        (attempt-Keeps e I _ (
          >>=-Keeps e I _ _ (handle-Keeps e I _ _ _ (run-Keeps e I _ (query_row-Preserves I _)))
            (λ row w c. c)))
        (elim [
          | ok stream ↦ λ w c. c
          | err x ↦
              if-Keeps e I (errors_is x not_found) _ _ (accept_key-Keeps db_now key) (λ w c. c)
        ])

  -- The rows with the key's ID are not revoked, since they are the key that was read.
  mark_expired-Keeps_at :
      (key : StreamKey) (w : World)
      → I (tables w)
      → AllActive key.id (tables w).stream_keys
      → I (tables (mark_expired e key w).1)
  unfolding mark_expired
  mark_expired-Keeps_at key w c live =
      let left = expired_left key w c live in >>=-Keeps_at e I _ _ w left (λ n _. left)

  check_key-Keeps_at :
      (now db_now : Time) (key : StreamKey) (w : World)
      → I (tables w)
      → All (λ k. (k.id == key.id) ≡ true → k ≡ key) (tables w).stream_keys
      → I (tables (check_key e now db_now key w).1)
  unfolding check_key
  check_key-Keeps_at now db_now key w c only = by_status key.status refl
    where
      by_status :
          (s : StreamKeyStatus)
          → key.status ≡ s
          → I (
              tables
                ((elim s as (λ _. Action World AuthResult) [
                  | StreamKeyStatus.active ↦
                      if is_past now key.expires_at
                      then mark_expired e key
                      else check_unused e db_now key
                  | StreamKeyStatus.revoked ↦ pure (reject "stream key revoked")
                  | StreamKeyStatus.expired ↦ pure (reject "stream key expired")
                ])
                  w).1)
      by_status StreamKeyStatus.revoked h = c
      by_status StreamKeyStatus.expired h = c
      by_status StreamKeyStatus.active h =
          if-Keeps_at e I (is_past now key.expires_at) _ _ w
            (mark_expired-Keeps_at key w c
              (All-imp _ (λ k same i. ap (λ (x : StreamKey). x.status) (same i) ∙ h) only))
            (check_unused-Keeps db_now key w c)

  -- From the row that was read on.
  found-Keeps :
      (now db_now : Time) (value : String) (w : World)
      → I (tables w)
      → (r : Result StreamKey) (w' : World)
      → Looked lookup_error (select_by_key_value value) (tables w) r (tables w')
      → I (
          tables
            ((elim r as (λ _. Action World AuthResult) [
              | ok key ↦ check_key e now db_now key
              | err x ↦
                  if errors_is x not_found
                  then pure (reject "invalid stream key")
                  else fail (wrap "failed to get stream key" x)
            ])
              w').1)
  found-Keeps now db_now value w c (ok key) w' (found, same) =
      check_key-Keeps_at now db_now key w' (subst I (sym same) c) (
        subst (λ (t : Tables). All (λ k. (k.id == key.id) ≡ true → k ≡ key) t.stream_keys)
          (sym same)
          (only_with_id (λ k. str_eq k.key_value value) (tables w).stream_keys
            (rules.consistent _ c).keys.ids found))
  found-Keeps now db_now value w c (err x) w' (same, _) =
      if-Keeps_at e I (errors_is x not_found) _ _ w' (subst I (sym same) c) (subst I (sym same) c)

  check-Keeps : (now db_now : Time) (value : String) → Keeps e I (check e now db_now value)
  unfolding check get_and_lock_stream_key ◌>>=◌ attempt
  check-Keeps now db_now value w c =
      found-Keeps now db_now value w c _ _
        (handle-Looked_text e (select_by_key_value value) w value lookup_error)

  pub authenticate-Keeps :
      (now db_now : Time) (req : AuthRequest) → Keeps e I (authenticate e now db_now req)
  unfolding authenticate
  authenticate-Keeps now db_now req =
      if-Keeps e I (str_eq req.action "publish") _ _
        (if-Keeps e I (str_eq (shown_key req) "") _ _ (λ w c. c)
          (handle-Keeps e I _ _ _ (begin-Keeps e I _ (check-Keeps now db_now (shown_key req)))))
        (λ w c. c)
