-- ===== src/Service/Broadcasters.antt =====
-- internal/service/broadcaster.go
pub mod Cascade
pub mod RoundTrip
pub mod Edited
use rescuestream_api.Prelude.{String, Option, none, some, List}
use rescuestream_api.Domain.{Uuid, Time, Metadata, nil_map, object, Broadcaster}
use rescuestream_api.Errors.{Action, ◌>>=◌, ◌>>◌}
use rescuestream_api.Env.{Env}
use rescuestream_api.Database.BroadcasterRepo

pub record CreateBroadcasterRequest : Type 0 where
  pub display_name : String
  pub metadata : Metadata

pub record UpdateBroadcasterRequest : Type 0 where
  pub display_name : Option String
  pub metadata : Metadata

-- `if broadcaster.Metadata == nil { broadcaster.Metadata = make(…) }`
abbrev pub or_empty : Metadata → Metadata
or_empty nil_map = object "{}"
or_empty (object s) = object s

-- `if req.DisplayName != nil`
abbrev pub new_name : Option String → String → String
new_name none old = old
new_name (some name) old = name

-- `if req.Metadata != nil`
abbrev pub new_metadata : Metadata → Metadata → Metadata
new_metadata nil_map old = old
new_metadata (object s) old = object s

abbrev pub edited : UpdateBroadcasterRequest → Broadcaster → Broadcaster
edited req b = record b {
  display_name = new_name req.display_name b.display_name;
  metadata = new_metadata req.metadata b.metadata;
}

module _ (e : Env) where
  open e use {World}

  -- The two readings of `time.Now()` are the arguments `created` and `updated`.
  unfoldable pub create :
      Uuid → Uuid → Time → Time → CreateBroadcasterRequest → Action World Broadcaster
  create fresh spare created updated req = BroadcasterRepo.create e spare (record {
    id = fresh;
    display_name = req.display_name;
    metadata = or_empty req.metadata;
    created_at = created;
    updated_at = updated;
  })

  unfoldable pub get_by_id : Uuid → Action World Broadcaster
  get_by_id id = BroadcasterRepo.get_by_id e id

  unfoldable pub list : Action World (List Broadcaster)
  list = BroadcasterRepo.list e

  unfoldable pub update : Time → Uuid → UpdateBroadcasterRequest → Action World Broadcaster
  update db_now id req = do
    b ← BroadcasterRepo.get_by_id e id
    BroadcasterRepo.update e db_now (edited req b)
    BroadcasterRepo.get_by_id e id

  unfoldable pub delete : Uuid → Action World (Unit {0})
  delete id = BroadcasterRepo.delete e id
