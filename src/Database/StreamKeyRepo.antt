-- ===== src/Database/StreamKeyRepo.antt =====
-- internal/database/streamkey_repo.go
use rescuestream_api.Prelude.{
  ℕ, String, Option, none, some, List, ◌==◌, str_eq, if◌then◌else◌, select,
}
use rescuestream_api.Domain.{Uuid, Time, nil_uuid, StreamKeyStatus, StreamKey}
use rescuestream_api.Errors.{
  handle, Error, not_found, domain, wrap, is_no_rows, ok, Action, pure, fail, wrapping, ◌>>=◌,
}
use rescuestream_api.Store.{
  varchar, to_column, to_column_opt, Tables, with_text, query_row, query, update_keys, insert_key,
}
use rescuestream_api.Env.{Env}

-- The columns that `Create` writes; the others take their defaults.
abbrev pub timed_row : StreamKey → StreamKey
timed_row key = record key {
  created_at = to_column key.created_at;
  expires_at = to_column_opt key.expires_at;
  revoked_at = none;
  last_used_at = none;
}

abbrev pub new_row : StreamKey → StreamKey
new_row key = record (timed_row key) { key_value = varchar 64 key.key_value }

abbrev pub select_by_id : Uuid → Tables → List StreamKey
select_by_id id t = select (λ k. k.id == id) t.stream_keys

abbrev pub select_by_key_value : String → Tables → List StreamKey
select_by_key_value value t = select (λ k. str_eq k.key_value value) t.stream_keys

abbrev pub set_status : StreamKeyStatus → Option Time → StreamKey → StreamKey
set_status status revoked_at k = record k { status = status; revoked_at = to_column_opt revoked_at }

abbrev pub set_last_used : Time → StreamKey → StreamKey
set_last_used t k = record k { last_used_at = some t }

-- `if key.ID == uuid.Nil { key.ID = uuid.New() }`
abbrev pub with_id : Uuid → StreamKey → StreamKey
with_id fresh key = if key.id == nil_uuid then record key { id = fresh } else key

-- The error of `scanStreamKey`.
abbrev pub scan_error : Error → Error
scan_error e = if is_no_rows e then domain not_found else wrap "failed to scan stream key" e

abbrev pub scan_stream_key : {W : Type 0} → Action W StreamKey → Action W StreamKey
scan_stream_key = handle ok scan_error

-- `if result.RowsAffected() == 0 { return domain.ErrNotFound }`
abbrev pub affected : {W : Type 0} → ℕ → Action W (Unit {0})
affected n = if n == 0 then fail (domain not_found) else pure tt

module _ (e : Env) where
  open e use {World, run, order_desc}

  -- `Create`, with the key as the call leaves it.
  unfoldable pub create : Uuid → StreamKey → Action World StreamKey
  create fresh key = do
    let key' = with_id fresh key
    n ← wrapping "failed to create stream key" (run (insert_key (new_row key')))
    pure key'

  unfoldable pub get_by_id : Uuid → Action World StreamKey
  get_by_id id = scan_stream_key (run (query_row (select_by_id id)))

  unfoldable pub get_by_key_value : String → Action World StreamKey
  get_by_key_value value =
      scan_stream_key (run (with_text value (query_row (select_by_key_value value))))

  -- `GetAndLockByKeyValue`: the row lock of FOR UPDATE changes no row.
  unfoldable pub get_and_lock_by_key_value : String → Action World StreamKey
  get_and_lock_by_key_value value =
      scan_stream_key (run (with_text value (query_row (select_by_key_value value))))

  unfoldable pub query_stream_keys : (Tables → List StreamKey) → Action World (List StreamKey)
  query_stream_keys rows =
      wrapping "failed to query stream keys"
        (run (query (λ t. order_desc (λ k. k.created_at) (rows t))))

  unfoldable pub list_by_broadcaster : Uuid → Action World (List StreamKey)
  unfolding query_stream_keys
  list_by_broadcaster broadcaster =
      query_stream_keys (λ t. select (λ k. k.broadcaster_id == broadcaster) t.stream_keys)

  unfoldable pub list_all : Action World (List StreamKey)
  unfolding query_stream_keys
  list_all = query_stream_keys (λ t. t.stream_keys)

  unfoldable pub update_status : Uuid → StreamKeyStatus → Option Time → Action World (Unit {0})
  update_status id status revoked_at = do
    n ←
        wrapping "failed to update stream key status"
          (run (update_keys (λ k. k.id == id) (set_status status revoked_at)))
    affected n

  -- `UpdateLastUsed`, at the database's time `now`.
  unfoldable pub update_last_used : Time → Uuid → Action World (Unit {0})
  update_last_used now id = do
    n ←
        wrapping "failed to update last used"
          (run (update_keys (λ k. k.id == id) (set_last_used now)))
    affected n
