-- ===== src/Domain.antt =====
-- internal/domain: the entities. A UUID is its 128-bit value as a number, and a time is a number of
-- nanoseconds, of which the columns keep microseconds.
use rescuestream_api.Prelude.{ℕ, String, Bool, true, false, Option, none, some, ltb, if◌then◌else◌}

abbrev pub Uuid : Type 0
Uuid = ℕ

-- `uuid.Nil`
abbrev pub nil_uuid : Uuid
nil_uuid = 0

abbrev pub Time : Type 0
Time = ℕ

-- `t.After(u)`
abbrev pub after : Time → Time → Bool
after t u = ltb u t

-- A `map[string]interface{}`: nil, or a map given by its JSON text.
pub data Metadata : Type 0 where
  nil_map : Metadata
  object : String → Metadata

pub record Broadcaster : Type 0 where
  pub id : Uuid
  pub display_name : String
  pub metadata : Metadata
  pub created_at : Time
  pub updated_at : Time

pub data StreamKeyStatus : Type 0 where
  active revoked expired : StreamKeyStatus

pub record StreamKey : Type 0 where
  pub id : Uuid
  pub key_value : String
  pub broadcaster_id : Uuid
  pub status : StreamKeyStatus
  pub created_at : Time
  pub expires_at : Option Time
  pub revoked_at : Option Time
  pub last_used_at : Option Time

pub data StreamStatus : Type 0 where
  active ended : StreamStatus

pub record Stream : Type 0 where
  pub id : Uuid
  pub stream_key_id : Uuid
  pub path : String
  pub status : StreamStatus
  pub started_at : Time
  pub ended_at : Option Time
  pub source_type : Option String
  pub source_id : Option String
  pub metadata : Metadata
  pub recording_ref : Option String

pub record StreamUrls : Type 0 where
  pub hls : String
  pub webrtc : String

pub record StreamWithUrls : Type 0 where
  pub stream : Stream
  pub urls : StreamUrls

abbrev pub key_is_active : StreamKeyStatus → Bool
key_is_active StreamKeyStatus.active = true
key_is_active _ = false

abbrev pub is_ended : StreamStatus → Bool
is_ended StreamStatus.ended = true
is_ended StreamStatus.active = false

abbrev pub stream_is_active : StreamStatus → Bool
stream_is_active StreamStatus.active = true
stream_is_active StreamStatus.ended = false

-- `sk.ExpiresAt != nil && time.Now().After(*sk.ExpiresAt)`
abbrev pub is_past : Time → Option Time → Bool
is_past now none = false
is_past now (some t) = after now t

-- `StreamKey.IsValid`, at the time `now`.
unfoldable pub is_valid : Time → StreamKey → Bool
is_valid now sk =
    if key_is_active sk.status then (if is_past now sk.expires_at then false else true) else false
