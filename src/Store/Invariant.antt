-- ===== src/Store/Invariant.antt =====
-- What holds of the tables at rest: the constraints of the schema, and the two facts about
-- `revoked_at` and `ended_at` that only the program upholds.
use rescuestream_api.Prelude.{◌≡◌, ◌≢◌, Bool, true, false, List, any, All, Pairwise, is_some, ◌==◌}
use rescuestream_api.Domain.{StreamKeyStatus, StreamKey, is_ended}
use rescuestream_api.Store.{BroadcasterRow, StreamRow, Tables, Stmt, clashes, has_nul}
use rescuestream_api.Errors.{ok}

abbrev pub is_revoked : StreamKeyStatus → Bool
is_revoked StreamKeyStatus.revoked = true
is_revoked StreamKeyStatus.active = false
is_revoked StreamKeyStatus.expired = false

abbrev pub BroadcastersOk : List BroadcasterRow → Type 0
BroadcastersOk bs = Pairwise (λ a b. a.id ≢ b.id) bs

abbrev pub has_broadcaster : List BroadcasterRow → StreamKey → Bool
has_broadcaster bs k = any (λ b. b.id == k.broadcaster_id) bs

abbrev pub has_key : List StreamKey → StreamRow → Bool
has_key ks s = any (λ k. k.id == s.stream_key_id) ks

-- The time of revocation is set for revoked keys and no others.
abbrev pub RevokedAtSet : StreamKey → Type 0
RevokedAtSet k = is_some k.revoked_at ≡ is_revoked k.status

-- The time of the end is set for ended streams and no others.
abbrev pub EndedAtSet : StreamRow → Type 0
EndedAtSet s = is_some s.ended_at ≡ is_ended s.status

pub record KeysOk (bs : List BroadcasterRow) (ks : List StreamKey) : Type 0 where
  pub ids : Pairwise (λ a b. a.id ≢ b.id) ks
  pub values : Pairwise (λ a b. a.key_value ≢ b.key_value) ks
  pub owned : All (λ k. has_broadcaster bs k ≡ true) ks
  pub revoked : All RevokedAtSet ks
  pub texts : All (λ k. has_nul k.key_value ≡ false) ks

pub record StreamsOk (ks : List StreamKey) (ss : List StreamRow) : Type 0 where
  pub ids : Pairwise (λ a b. a.id ≢ b.id) ss
  pub one_active : Pairwise (λ a b. clashes a b ≡ false) ss
  pub owned : All (λ s. has_key ks s ≡ true) ss
  pub ended : All EndedAtSet ss

pub record IsConsistent (t : Tables) : Type 0 where
  pub broadcasters : BroadcastersOk t.broadcasters
  pub keys : KeysOk t.broadcasters t.stream_keys
  pub streams : StreamsOk t.stream_keys t.streams

-- A statement keeps what holds of the tables.
abbrev pub Preserves : {A : Type 0} → (Tables → Type 0) → Stmt A → Type 0
Preserves {A} I s = (t : Tables) (a : A) (t' : Tables) → I t → s t ≡ ok (a, t') → I t'
