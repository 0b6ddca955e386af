-- ===== src/Tests/Data.antt =====
-- A broadcaster with three keys, one of which is streaming.
use rescuestream_api.Prelude.{String, eq_iff, true, none, some, [], ◌∷◌, arith}
use rescuestream_api.Domain.{StreamKeyStatus, StreamStatus, StreamKey}
use rescuestream_api.Store.{Json, BroadcasterRow, StreamRow, Tables}
use rescuestream_api.Store.Invariant.{IsConsistent}
use rescuestream_api.Env.{Conn}
use rescuestream_api.Env.Memory.{Memory}
use rescuestream_api.Service.Auth.{AuthRequest}

abbrev pub ranger : BroadcasterRow
ranger = record {
  id = 1;
  display_name = "Ranger";
  metadata = Json.object "{}";
  created_at = 10;
  updated_at = 10;
}

-- Free to use until 500.
abbrev pub free_key : StreamKey
free_key = record {
  id = 11;
  key_value = "sk_free";
  broadcaster_id = 1;
  status = StreamKeyStatus.active;
  created_at = 20;
  expires_at = some 500;
  revoked_at = none;
  last_used_at = none;
}

abbrev pub busy_key : StreamKey
busy_key = record {
  id = 12;
  key_value = "sk_busy";
  broadcaster_id = 1;
  status = StreamKeyStatus.active;
  created_at = 30;
  expires_at = none;
  revoked_at = none;
  last_used_at = some 40;
}

abbrev pub old_key : StreamKey
old_key = record {
  id = 13;
  key_value = "sk_old";
  broadcaster_id = 1;
  status = StreamKeyStatus.revoked;
  created_at = 5;
  expires_at = none;
  revoked_at = some 15;
  last_used_at = none;
}

abbrev pub live : StreamRow
live = record {
  id = 21;
  stream_key_id = 12;
  path = "sk_busy";
  status = StreamStatus.active;
  started_at = 41;
  ended_at = none;
  source_type = some "rtmpConn";
  source_id = none;
  metadata = Json.object "{}";
  recording_ref = none;
}

abbrev pub stored : Tables
stored = record {
  broadcasters = ranger ∷ [];
  stream_keys = free_key ∷ busy_key ∷ old_key ∷ [];
  streams = live ∷ [];
}

abbrev pub conn : String → String → Conn
conn id path = record { id = some id; path = some path }

abbrev pub start : Memory
start = record {
  stored = stored;
  up = true;
  rtmp_conns =
      conn "c1" "sk_busy" ∷ conn "c2" "other" ∷ record { id = none; path = some "sk_busy" } ∷ [];
  rtsp_sessions = conn "s1" "sk_busy" ∷ [];
  kicked = [];
}

abbrev pub publish : String → String → AuthRequest
publish password path = record {
  user = "";
  password = password;
  ip = "10.0.0.1";
  action = "publish";
  path = path;
  protocol = "rtmp";
  id = "";
  query = "";
}

pub stored-IsConsistent : IsConsistent stored
stored-IsConsistent =
    ground (arith, eq_iff "sk_free" "sk_busy", eq_iff "sk_free" "sk_old", eq_iff "sk_busy" "sk_old")
