-- ===== src/Consistency/Rules.antt =====
-- What a predicate on the tables needs for the requests to keep it: one rule for each statement
-- that writes. The requests are proved once, for every predicate with these rules.
use rescuestream_api.Prelude.{◌≡◌, refl, true, ap, Bool, some, List, All, All-imp, update, ◌==◌}
use rescuestream_api.Domain.{Uuid, Time, StreamKeyStatus, StreamKey, Broadcaster}
use rescuestream_api.Store.{
  BroadcasterRow, StreamRow, Tables, update_keys, update_streams, update_broadcasters, insert_key,
  insert_stream, insert_broadcaster,
}
use rescuestream_api.Store.Invariant.{IsConsistent, RevokedAtSet, EndedAtSet, Preserves, is_revoked}
use rescuestream_api.Database.StreamKeyRepo.{set_status, set_last_used}
use rescuestream_api.Database.StreamRepo.{end_row}
use rescuestream_api.Database.BroadcasterRepo.{set_details}
use rescuestream_api.Service.Auth.{expire}
use rescuestream_api.Consistency.Keys.{
  set_last_used-Preserves, revoke-Preserves, expire-IsConsistent, insert_key-Preserves,
}
use rescuestream_api.Consistency.Streams.{end_row-Preserves, insert_stream-Preserves}
use rescuestream_api.Consistency.Broadcasters.{set_details-Preserves, insert_broadcaster-Preserves}

-- Every key with the ID is active.
abbrev pub AllActive : Uuid → List StreamKey → Type 0
AllActive id = All (λ k. (k.id == id) ≡ true → k.status ≡ StreamKeyStatus.active)

-- The keys with an ID changed by `f`.
abbrev pub with_keys : Uuid → (StreamKey → StreamKey) → Tables → Tables
with_keys id f t = record t { stream_keys = update (λ k. k.id == id) f t.stream_keys }

abbrev pub revoke_at : Time → StreamKey → StreamKey
revoke_at now = set_status StreamKeyStatus.revoked (some now)

-- The rules for authentication and the webhooks.
pub record UseRules (I : Tables → Type 0) : Type 0 where
  pub consistent : (t : Tables) → I t → IsConsistent t
  pub key_used :
      (id : Uuid) (now : Time) → Preserves I (update_keys (λ k. k.id == id) (set_last_used now))
  -- The two changes of a status are made to active keys alone.
  pub key_expired :
      (id : Uuid) (t : Tables) → AllActive id t.stream_keys → I t → I (with_keys id expire t)
  pub stream_added : (s : StreamRow) → EndedAtSet s → Preserves I (insert_stream s)
  pub streams_ended :
      (p : StreamRow → Bool) (now : Time) → Preserves I (update_streams p (end_row now))

-- The rules for all requests but the deletion of a broadcaster.
pub record Rules (I : Tables → Type 0) : Type 0 where
  pub uses : UseRules I
  pub key_revoked :
      (id : Uuid) (now : Time) (t : Tables)
      → AllActive id t.stream_keys
      → I t
      → I (with_keys id (revoke_at now) t)
  pub key_added : (k : StreamKey) → RevokedAtSet k → Preserves I (insert_key k)
  pub broadcaster_added : (b : BroadcasterRow) → Preserves I (insert_broadcaster b)
  pub broadcaster_changed :
      (good : Bool) (id : Uuid) (now : Time) (b : Broadcaster)
      → Preserves I (update_broadcasters good (λ r. r.id == id) (set_details now b))

pub consistency_uses : UseRules IsConsistent
consistency_uses = record {
  consistent = λ t c. c;
  key_used = set_last_used-Preserves;
  key_expired = λ id t live c.
      expire-IsConsistent id t c
        (All-imp t.stream_keys (λ k active same. ap is_revoked (active same)) live);
  stream_added = insert_stream-Preserves;
  streams_ended = end_row-Preserves;
}

pub consistency_rules : Rules IsConsistent
consistency_rules = record {
  uses = consistency_uses;
  key_revoked = λ id now t live c. revoke-Preserves id now t _ _ c refl;
  key_added = insert_key-Preserves;
  broadcaster_added = insert_broadcaster-Preserves;
  broadcaster_changed = set_details-Preserves;
}
