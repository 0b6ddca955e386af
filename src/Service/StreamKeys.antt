-- ===== src/Service/StreamKeys.antt =====
-- internal/service/streamkey.go
mod Base64
pub mod Revoked
pub mod Terminate
pub mod KeyLength
pub mod Decode
pub mod Created
pub mod Ends
unfoldable pub use Base64.*
use Prim.Native.String
use rescuestream_api.Prelude.{
  ℕ, String, Bool, true, false, not, ◌&&◌, Option, none, some, List, map, if◌then◌else◌,
}
use rescuestream_api.Domain.{Uuid, Time, StreamKeyStatus, StreamKey, Stream, key_is_active}
use rescuestream_api.Errors.{
  Error, not_found, invalid_status, domain, wrap, error_eq, Result, ok, err, Action, pure, fail,
  lift, wrapping, attempt, ◌>>=◌, ◌>>◌,
}
use rescuestream_api.Env.{Env}
use rescuestream_api.Database.StreamKeyRepo
use rescuestream_api.Database.StreamRepo
use rescuestream_api.Service.MediaMtx.{kick_path}

pub record CreateRequest : Type 0 where
  pub broadcaster_id : Uuid
  pub expires_at : Option Time

-- `generateStreamKey`, with what `rand.Read` answers: 32 bytes, or an error.
unfoldable pub generate_stream_key : Result (List ℕ) → Result String
generate_stream_key (ok bytes) = ok (String.◌++◌ "sk_" (encode_to_string bytes))
generate_stream_key (err e) = err e

-- `keys[i].KeyValue = ""`
abbrev pub clear_key_value : StreamKey → StreamKey
clear_key_value k = record k { key_value = "" }

abbrev pub new_key : Uuid → Time → String → CreateRequest → StreamKey
new_key fresh now value req = record {
  id = fresh;
  key_value = value;
  broadcaster_id = req.broadcaster_id;
  status = StreamKeyStatus.active;
  created_at = now;
  expires_at = req.expires_at;
  revoked_at = none;
  last_used_at = none;
}

module _ (e : Env) where
  open e use {World}

  -- `fresh` is the new UUID, and `spare` the one that the repository makes if that is `uuid.Nil`.
  unfoldable pub create :
      Uuid → Uuid → Time → Result (List ℕ) → CreateRequest → Action World StreamKey
  create fresh spare now random req = do
    value ← wrapping "failed to generate stream key" (lift (generate_stream_key random))
    StreamKeyRepo.create e spare (new_key fresh now value req)

  unfoldable pub get_by_id : Uuid → Action World StreamKey
  get_by_id id = StreamKeyRepo.get_by_id e id

  unfoldable pub list : Action World (List StreamKey)
  list = do keys ← StreamKeyRepo.list_all e; pure (map clear_key_value keys)

  unfoldable pub list_by_broadcaster : Uuid → Action World (List StreamKey)
  list_by_broadcaster broadcaster = do
    keys ← StreamKeyRepo.list_by_broadcaster e broadcaster
    pure (map clear_key_value keys)

  -- Kick the stream's path and end the stream; the errors of both are only logged.
  unfoldable pub terminate : Time → Stream → Action World (Unit {0})
  terminate db_now stream = do
    kicked ← attempt (kick_path e stream.path)
    done ← attempt (StreamRepo.end_stream e db_now stream.id)
    pure tt

  -- The check for an active stream, and its end; an error that is `==` to ErrNotFound means none.
  unfoldable pub terminate_active : Time → Uuid → Action World (Unit {0})
  terminate_active db_now id = do
    r ← attempt (StreamRepo.get_active_by_stream_key_id e id)
    elim r [
      | ok stream ↦ terminate db_now stream
      | err x ↦
          if error_eq x not_found then pure tt else fail (wrap "failed to check active stream" x)
    ]

  -- `now` is `time.Now()` and `db_now` the database's `NOW()`.
  unfoldable pub revoke : Time → Time → Uuid → Action World (Unit {0})
  revoke now db_now id = do
    key ← StreamKeyRepo.get_by_id e id
    if key_is_active key.status
        then (terminate_active db_now id
            >> StreamKeyRepo.update_status e id StreamKeyStatus.revoked (some now))
        else fail (domain invalid_status)
