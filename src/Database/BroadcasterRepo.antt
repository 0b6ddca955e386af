-- ===== src/Database/BroadcasterRepo.antt =====
-- internal/database/broadcaster_repo.go
use rescuestream_api.Prelude.{ℕ, List, [], ◌∷◌, ◌==◌, ◌&&◌, if◌then◌else◌, select}
use rescuestream_api.Domain.{Uuid, Time, Metadata, nil_uuid, Broadcaster}
use rescuestream_api.Errors.{
  handle, Error, not_found, domain, wrap, is_no_rows, Result, ok, err, Action, pure, fail, lift,
  wrapping, ◌>>=◌,
}
use rescuestream_api.Store.{
  varchar, to_column, takes_json, fits, BroadcasterRow, query_row, query, update_broadcasters,
  insert_broadcaster, delete_broadcaster,
}
use rescuestream_api.Env.{Env}
use rescuestream_api.Database.StreamRepo.{marshal, unmarshal}

abbrev pub timed_row : Broadcaster → BroadcasterRow
timed_row b = record {
  id = b.id;
  display_name = b.display_name;
  metadata = marshal b.metadata;
  created_at = to_column b.created_at;
  updated_at = to_column b.updated_at;
}

abbrev pub new_row : Broadcaster → BroadcasterRow
new_row b = record (timed_row b) { display_name = varchar 255 b.display_name }

abbrev pub of_row : BroadcasterRow → Metadata → Broadcaster
of_row r m = record {
  id = r.id;
  display_name = r.display_name;
  metadata = m;
  created_at = r.created_at;
  updated_at = r.updated_at;
}

abbrev pub with_id : Uuid → Broadcaster → Broadcaster
with_id fresh b = if b.id == nil_uuid then record b { id = fresh } else b

abbrev pub scan_row : BroadcasterRow → Result Broadcaster
scan_row r = elim (unmarshal r.metadata) [
  | ok m ↦ ok (of_row r m)
  | err e ↦ err (wrap "failed to unmarshal metadata" e)
]

abbrev pub scan_error : Error → Error
scan_error e = if is_no_rows e then domain not_found else wrap "failed to get broadcaster" e

abbrev pub scan_broadcaster : {W : Type 0} → Action W BroadcasterRow → Action W Broadcaster
scan_broadcaster = handle scan_row scan_error

-- The loop over `rows.Next()` in `List`.
abbrev pub scan_rows : List BroadcasterRow → Result (List Broadcaster)
scan_rows [] = ok []
scan_rows (r ∷ rs) =
    let rest = scan_rows rs in
    elim (scan_row r) [ ok b ↦ elim rest [ ok bs ↦ ok (b ∷ bs) | err e ↦ err e ] | err e ↦ err e ]

-- SET display_name = $2, metadata = $3, updated_at = NOW(); the trigger sets the same time.
abbrev pub set_details : Time → Broadcaster → BroadcasterRow → BroadcasterRow
set_details now b r = record r {
  display_name = varchar 255 b.display_name;
  metadata = marshal b.metadata;
  updated_at = now;
}

abbrev pub affected : {W : Type 0} → ℕ → Action W (Unit {0})
affected n = if n == 0 then fail (domain not_found) else pure tt

module _ (e : Env) where
  open e use {World, run, order_desc}

  -- `Create`, with the broadcaster as the call leaves it.
  unfoldable pub create : Uuid → Broadcaster → Action World Broadcaster
  create fresh b = do
    let b' = with_id fresh b
    n ← wrapping "failed to create broadcaster" (run (insert_broadcaster (new_row b')))
    pure b'

  unfoldable pub get_by_id : Uuid → Action World Broadcaster
  get_by_id id = scan_broadcaster (run (query_row (λ t. select (λ b. b.id == id) t.broadcasters)))

  -- `Update`, at the database's time `now`.
  unfoldable pub update : Time → Broadcaster → Action World (Unit {0})
  update now b = do
    n ← wrapping "failed to update broadcaster" (
        run (
          update_broadcasters
            (fits 255 (varchar 255 b.display_name) && takes_json (marshal b.metadata))
            (λ r. r.id == b.id) (set_details now b)))
    affected n

  unfoldable pub delete : Uuid → Action World (Unit {0})
  delete id = do
    n ← wrapping "failed to delete broadcaster" (run (delete_broadcaster id))
    affected n

  unfoldable pub list : Action World (List Broadcaster)
  list = do
    rows ←
        wrapping "failed to list broadcasters"
          (run (query (λ t. order_desc (λ b. b.created_at) t.broadcasters)))
    lift (scan_rows rows)
