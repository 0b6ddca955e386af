-- ===== src/Service/Auth/Outcome.antt =====
-- What `Authenticate` of internal/service/auth.go answers and leaves, case by case.
use rescuestream_api.Prelude.{
  ◌≡◌, String, Bool, true, false, some, any, update, head?, select, ◌==◌, str_eq,
}
use rescuestream_api.Domain.{Time, StreamKeyStatus, StreamKey, is_past}
use rescuestream_api.Errors.{Result, ok, err}
use rescuestream_api.Store.{Tables}
use rescuestream_api.Database.StreamKeyRepo.{set_last_used}
use rescuestream_api.Database.StreamRepo.{is_active_of_key}
use rescuestream_api.Service.Auth.{AuthResult, allow, reject, expire}

abbrev pub with_key_value : String → StreamKey → Bool
with_key_value value k = str_eq k.key_value value

-- An active stream of the key.
abbrev pub in_use : Tables → StreamKey → Bool
in_use t key = any (is_active_of_key key.id) t.streams

abbrev pub write_key : StreamKey → (StreamKey → StreamKey) → Tables → Tables
write_key key f t = record t { stream_keys = update (λ k. k.id == key.id) f t.stream_keys }

-- The decision on a key: the result `r` with its reason, and the tables `t'` that are left.
pub data Decision (now db_now : Time) (t : Tables) (key : StreamKey) (r : AuthResult) (t' : Tables)
    : Type 0 where
  revoked :
      key.status ≡ StreamKeyStatus.revoked
      → r ≡ reject "stream key revoked"
      → t' ≡ t
      → Decision now db_now t key r t'
  expired :
      key.status ≡ StreamKeyStatus.expired
      → r ≡ reject "stream key expired"
      → t' ≡ t
      → Decision now db_now t key r t'
  expires :
      key.status ≡ StreamKeyStatus.active
      → is_past now key.expires_at ≡ true
      → r ≡ reject "stream key expired"
      → t' ≡ write_key key expire t
      → Decision now db_now t key r t'
  busy :
      key.status ≡ StreamKeyStatus.active
      → is_past now key.expires_at ≡ false
      → in_use t key ≡ true
      → r ≡ reject "stream key already in use"
      → t' ≡ t
      → Decision now db_now t key r t'
  granted :
      key.status ≡ StreamKeyStatus.active
      → is_past now key.expires_at ≡ false
      → in_use t key ≡ false
      → r ≡ allow (some key.id) "authentication successful"
      → t' ≡ write_key key (set_last_used db_now) t
      → Decision now db_now t key r t'

-- The decision on the key with the value `value` in the tables `t`, at the times `now` and `db_now`:
-- the result `r`, its reason, and the tables `t'` that are left.
pub data Outcome (now db_now : Time) (value : String) (t : Tables) (r : AuthResult) (t' : Tables)
    : Type 0 where
  unknown :
      any (with_key_value value) t.stream_keys ≡ false
      → r ≡ reject "invalid stream key"
      → t' ≡ t
      → Outcome now db_now value t r t'
  known :
      (key : StreamKey)
      → head? (select (with_key_value value) t.stream_keys) ≡ some key
      → Decision now db_now t key r t'
      → Outcome now db_now value t r t'

-- An answer satisfies `P`; an error says nothing.
abbrev pub Done : {W : Type 0} → (AuthResult → W → Type 0) → Result AuthResult × W → Type 0
Done P (ok r, w') = P r w'
Done P (err x, w') = Unit
