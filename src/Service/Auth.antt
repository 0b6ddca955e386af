-- ===== src/Service/Auth.antt =====
-- internal/service/auth.go
pub mod Outcome
pub mod Decisions
pub mod Answers
pub mod Total
pub mod Again
pub mod Access
use Prim.Native.Char.{code}
use rescuestream_api.Prelude.{
  String, Bool, true, false, Option, none, some, ◌==◌, str_eq, if◌then◌else◌, select,
}
use rescuestream_api.Domain.{Uuid, Time, nil_map, StreamKeyStatus, StreamKey, Stream, is_past}
use rescuestream_api.Errors.{
  handle, Error, not_found, domain, wrap, errors_is, is_no_rows, ok, err, Action, pure, fail,
  wrapping, attempt, ◌>>=◌,
}
use rescuestream_api.Store.{StreamRow, with_text, query_row, update_keys}
use rescuestream_api.Env.{Env}
use rescuestream_api.Database.StreamKeyRepo.{select_by_key_value, set_last_used}
use rescuestream_api.Database.StreamRepo.{is_active_of_key}

pub record AuthRequest : Type 0 where
  pub user : String
  pub password : String
  pub ip : String
  pub action : String
  pub path : String
  pub protocol : String
  pub id : String
  pub query : String

-- The key's ID stands for its text.
pub record AuthResult : Type 0 where
  pub allowed : Bool
  pub stream_key_id : Option Uuid
  pub reason : String

abbrev pub allow : Option Uuid → String → AuthResult
allow id reason = record { allowed = true; stream_key_id = id; reason = reason }

abbrev pub reject : String → AuthResult
reject reason = record { allowed = false; stream_key_id = none; reason = reason }

-- `if len(keyValue) > 0 && keyValue[0] == '/' { keyValue = keyValue[1:] }`
abbrev pub strip_slash : String → String
strip_slash String.[] = ""
strip_slash (String.◌∷◌ c s) = if code c == b'/' then s else String.◌∷◌ c s

-- The stream key that the request shows: the password, or else the path.
abbrev pub shown_key : AuthRequest → String
shown_key req = if str_eq req.password "" then strip_slash req.path else req.password

abbrev pub expire : StreamKey → StreamKey
expire k = record k { status = StreamKeyStatus.expired }

-- The errors of both queries: `pgx.ErrNoRows` becomes ErrNotFound, others are passed on.
abbrev pub lookup_error : Error → Error
lookup_error e = if is_no_rows e then domain not_found else e

abbrev pub looked_up : {W A : Type 0} → Action W A → Action W A
looked_up = handle ok lookup_error

-- The columns that `getActiveStreamByKeyID` reads; the other fields keep their zero values.
abbrev pub brief : StreamRow → Stream
brief r = record {
  id = r.id;
  stream_key_id = r.stream_key_id;
  path = r.path;
  status = r.status;
  started_at = r.started_at;
  ended_at = none;
  source_type = none;
  source_id = none;
  metadata = nil_map;
  recording_ref = none;
}

module _ (e : Env) where
  open e use {World, run, begin_func}

  unfoldable pub get_and_lock_stream_key : String → Action World StreamKey
  get_and_lock_stream_key value =
      looked_up (run (with_text value (query_row (select_by_key_value value))))

  unfoldable pub get_active_stream_by_key_id : Uuid → Action World Stream
  get_active_stream_by_key_id key = do
    row ← looked_up (run (query_row (λ t. select (is_active_of_key key) t.streams)))
    pure (brief row)

  -- UPDATE stream_keys SET status = 'expired' WHERE id = $1
  unfoldable pub mark_expired : StreamKey → Action World AuthResult
  mark_expired key = do
    n ← wrapping "failed to update expired status" (run (update_keys (λ k. k.id == key.id) expire))
    pure (reject "stream key expired")

  -- UPDATE stream_keys SET last_used_at = NOW() WHERE id = $1
  unfoldable pub accept_key : Time → StreamKey → Action World AuthResult
  accept_key db_now key = do
    n ←
        wrapping "failed to update last used"
          (run (update_keys (λ k. k.id == key.id) (set_last_used db_now)))
    pure (allow (some key.id) "authentication successful")

  -- From the check for an active stream on.
  unfoldable pub check_unused : Time → StreamKey → Action World AuthResult
  check_unused db_now key = do
    r ← attempt (get_active_stream_by_key_id key.id)
    elim r [
      | ok stream ↦ pure (reject "stream key already in use")
      | err x ↦
          if errors_is x not_found
          then accept_key db_now key
          else fail (wrap "failed to check active stream" x)
    ]

  -- From the check of the status on; `now` is `time.Now()`.
  unfoldable pub check_key : Time → Time → StreamKey → Action World AuthResult
  check_key now db_now key = elim key.status [
    | StreamKeyStatus.revoked ↦ pure (reject "stream key revoked")
    | StreamKeyStatus.expired ↦ pure (reject "stream key expired")
    | StreamKeyStatus.active ↦
        if is_past now key.expires_at then mark_expired key else check_unused db_now key
  ]

  -- The function that the transaction runs.
  unfoldable pub check : Time → Time → String → Action World AuthResult
  check now db_now value = do
    r ← attempt (get_and_lock_stream_key value)
    elim r [
      | ok key ↦ check_key now db_now key
      | err x ↦
          if errors_is x not_found
          then pure (reject "invalid stream key")
          else fail (wrap "failed to get stream key" x)
    ]

  unfoldable pub authenticate : Time → Time → AuthRequest → Action World AuthResult
  authenticate now db_now req =
      if str_eq req.action "publish"
      then (if str_eq (shown_key req) ""
          then pure (reject "missing stream key")
          else wrapping "authentication transaction failed"
              (begin_func (check now db_now (shown_key req))))
      else pure (allow none "non-publish action allowed")
