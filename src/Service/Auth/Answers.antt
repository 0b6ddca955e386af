-- ===== src/Service/Auth/Answers.antt =====
-- `Authenticate` of internal/service/auth.go as a whole.
use rescuestream_api.Prelude.{
  ◌≡◌, ◌≢◌, refl, sym, subst, subst₂, String, some, head?, select, eq_iff, if◌then◌else◌,
  any_of_head,
}
use rescuestream_api.Domain.{Time, StreamKey}
use rescuestream_api.Errors.{
  Result, ok, err, Action, pure, fail, wrap, handle, attempt, errors_is, not_found, wrapping, ◌>>=◌,
}
use rescuestream_api.Store.{Tables}
use rescuestream_api.Env.{Env, Committed}
use rescuestream_api.Env.Reads.{Looked, handle-Looked_text}
use rescuestream_api.Database.StreamKeyRepo.{select_by_key_value}
use rescuestream_api.Service.Auth.{
  AuthRequest, AuthResult, reject, shown_key, lookup_error, get_and_lock_stream_key, check_key,
  check, authenticate,
}
use rescuestream_api.Service.Auth.Outcome.{Decision, Outcome, unknown, known, Done, with_key_value}
use rescuestream_api.Service.Auth.Decisions.{
  if-Done, not_found_of_lookup, ne_test, check_key-Decision,
}

module _ (e : Env) (now db_now : Time) where
  open e use {World, tables}

  Done-known :
      (value : String) (key : StreamKey) (w : World)
      → head? (select (with_key_value value) (tables w).stream_keys) ≡ some key
      → (a : Result AuthResult × World)
      → Done (λ r w'. Decision now db_now (tables w) key r (tables w')) a
      → Done (λ r w'. Outcome now db_now value (tables w) r (tables w')) a
  Done-known value key w found (ok r, w') d = known key found d
  Done-known value key w found (err x, w') d = tt

  found-Outcome :
      (value : String) (w w' : World) (r : Result StreamKey)
      → Looked lookup_error (select_by_key_value value) (tables w) r (tables w')
      → Done
          (λ r w'. Outcome now db_now value (tables w) r (tables w'))
          ((elim r as (λ _. Action World AuthResult) [
            | ok key ↦ check_key e now db_now key
            | err x ↦
                if errors_is x not_found
                then pure (reject "invalid stream key")
                else fail (wrap "failed to get stream key" x)
          ])
            w')
  found-Outcome value w w' (ok key) (found, same) =
      Done-known value key w found (check_key e now db_now key w') (
        subst
          (λ (t : Tables).
            Done (λ r w'. Decision now db_now t key r (tables w')) (check_key e now db_now key w'))
          same (check_key-Decision e now db_now key w'))
  found-Outcome value w w' (err x) (same, why) =
      if-Done (λ r w'. Outcome now db_now value (tables w) r (tables w')) (errors_is x not_found) _
        _ w'
        (λ missing.
          unknown (any_of_head _ (tables w).stream_keys _ (not_found_of_lookup x why missing)) refl
            same)
        (λ other. tt)

  check-Outcome :
      (value : String) (w : World)
      → Done
          (λ r w'. Outcome now db_now value (tables w) r (tables w'))
          (check e now db_now value w)
  unfolding check get_and_lock_stream_key attempt ◌>>=◌
  check-Outcome value w =
      found-Outcome value w _ _
        (handle-Looked_text e (select_by_key_value value) w value lookup_error)

  Committed-Outcome :
      (value : String) (t : Tables) (r : Result AuthResult × World)
      → Committed tables e.healthy (check e now db_now value) t r
      → Done (λ r w'. Outcome now db_now value t r (tables w')) r
  Committed-Outcome value t (ok r, w') (w₁, w₂, begun, ran, left) =
      let outcome =
        subst (Done (λ r w'. Outcome now db_now value (tables w₁) r (tables w'))) ran
          (check-Outcome value w₁) in
      subst₂ (λ t t'. Outcome now db_now value t r t') begun (sym left) outcome
  Committed-Outcome value t (err x, w') _ = tt

  wrapped-Done :
      (P : AuthResult → World → Type 0) (s : String) (m : Action World AuthResult) (w : World)
      → Done P (m w)
      → Done P (wrapping s m w)
  unfolding handle
  wrapped-Done P s m w = by_result (m w).0
    where
      by_result :
          (r : Result AuthResult)
          → Done P (r, (m w).1)
          → Done P
              (elim r as (λ _. Result AuthResult) [ ok a ↦ ok a | err x ↦ err (wrap s x) ], (m w).1)
      by_result (ok a) h = h
      by_result (err x) h = tt

-- In any environment, an answer to a publish request that shows a key is the decision on that key in
-- the tables that the request found: of an unknown key, a revoked one, one expired before, one that
-- expires now (and is then marked so), one with an active stream, or one that is granted (and then
-- has its last use written). Nothing else of the tables changes.
pub authenticate-Outcome :
    (e : Env) (now db_now : Time) (req : AuthRequest) (w : e.World)
    → req.action ≡ "publish"
    → shown_key req ≢ ""
    → Done
        (λ r w'. Outcome now db_now (shown_key req) (e.tables w) r (e.tables w'))
        (authenticate e now db_now req w)
unfolding authenticate
authenticate-Outcome e now db_now req w publish shown =
    rw ((eq_iff req.action "publish").1 publish, ne_test (shown_key req) shown)
      (wrapped-Done e now db_now _ _ _ w
        (Committed-Outcome e now db_now (shown_key req) (e.tables w) _ (e.begin_lem _ w)))
