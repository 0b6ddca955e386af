-- ===== src/Database/StreamRepo.antt =====
-- internal/database/stream_repo.go
use rescuestream_api.Prelude.{
  ℕ, String, Bool, none, some, List, [], ◌∷◌, ◌&&◌, ◌==◌, str_eq, if◌then◌else◌, select,
}
use rescuestream_api.Domain.{
  Uuid, Time, Metadata, nil_map, object, nil_uuid, ended, Stream, stream_is_active,
}
use rescuestream_api.Errors.{
  handle, Error, not_found, domain, external, wrap, is_no_rows, Result, ok, err, Action, pure, fail,
  lift, wrapping, ◌>>=◌,
}
use rescuestream_api.Store.{
  varchar, varchar_opt, to_column, Json, StreamRow, with_text, query_row, query, update_streams,
  insert_stream,
}
use rescuestream_api.Env.{Env}

-- `json.Marshal` of a metadata map.
abbrev pub marshal : Metadata → Json
marshal nil_map = Json.null
marshal (object s) = Json.object s

-- `json.Unmarshal` into a metadata map: null leaves it nil, and only an object fits.
abbrev pub unmarshal : Json → Result Metadata
unmarshal Json.null = ok nil_map
unmarshal (Json.object s) = ok (object s)
unmarshal (Json.other s) = err (external "cannot unmarshal into a map")

-- The columns that `Create` writes; the others take their defaults.
abbrev pub timed_row : Stream → StreamRow
timed_row s = record {
  id = s.id;
  stream_key_id = s.stream_key_id;
  path = s.path;
  status = s.status;
  started_at = to_column s.started_at;
  ended_at = none;
  source_type = s.source_type;
  source_id = s.source_id;
  metadata = marshal s.metadata;
  recording_ref = none;
}

abbrev pub new_row : Stream → StreamRow
new_row s = record (timed_row s) {
  path = varchar 255 s.path;
  source_type = varchar_opt 50 s.source_type;
  source_id = varchar_opt 255 s.source_id;
}

-- The stream of a row, with its metadata decoded.
abbrev pub of_row : StreamRow → Metadata → Stream
of_row r m = record {
  id = r.id;
  stream_key_id = r.stream_key_id;
  path = r.path;
  status = r.status;
  started_at = r.started_at;
  ended_at = r.ended_at;
  source_type = r.source_type;
  source_id = r.source_id;
  metadata = m;
  recording_ref = r.recording_ref;
}

-- `if stream.ID == uuid.Nil { stream.ID = uuid.New() }`
abbrev pub with_id : Uuid → Stream → Stream
with_id fresh s = if s.id == nil_uuid then record s { id = fresh } else s

abbrev pub is_active_with_id : Uuid → StreamRow → Bool
is_active_with_id id s = s.id == id && stream_is_active s.status

abbrev pub is_active_at : String → StreamRow → Bool
is_active_at path s = str_eq s.path path && stream_is_active s.status

abbrev pub is_active_of_key : Uuid → StreamRow → Bool
is_active_of_key key s = s.stream_key_id == key && stream_is_active s.status

-- SET status = 'ended', ended_at = NOW()
abbrev pub end_row : Time → StreamRow → StreamRow
end_row now s = record s { status = ended; ended_at = some now }

-- The metadata of a scanned row; its error is wrapped.
abbrev pub scan_row : StreamRow → Result Stream
scan_row r = elim (unmarshal r.metadata) [
  | ok m ↦ ok (of_row r m)
  | err e ↦ err (wrap "failed to unmarshal metadata" e)
]

abbrev pub scan_error : Error → Error
scan_error e = if is_no_rows e then domain not_found else wrap "failed to scan stream" e

-- `scanStream`
abbrev pub scan_stream : {W : Type 0} → Action W StreamRow → Action W Stream
scan_stream = handle scan_row scan_error

-- The loop over `rows.Next()`, with `scanStreamFromRows` in it.
abbrev pub scan_rows : List StreamRow → Result (List Stream)
scan_rows [] = ok []
scan_rows (r ∷ rs) =
    let rest = scan_rows rs in
    elim (scan_row r) [ ok s ↦ elim rest [ ok ss ↦ ok (s ∷ ss) | err e ↦ err e ] | err e ↦ err e ]

abbrev pub affected : {W : Type 0} → ℕ → Action W (Unit {0})
affected n = if n == 0 then fail (domain not_found) else pure tt

module _ (e : Env) where
  open e use {World, run, order_desc}

  -- `Create`, with the stream as the call leaves it.
  unfoldable pub create : Uuid → Stream → Action World Stream
  create fresh stream = do
    let stream' = with_id fresh stream
    n ← wrapping "failed to create stream" (run (insert_stream (new_row stream')))
    pure stream'

  unfoldable pub get_by_id : Uuid → Action World Stream
  get_by_id id = scan_stream (run (query_row (λ t. select (λ s. s.id == id) t.streams)))

  unfoldable pub get_active_by_path : String → Action World Stream
  get_active_by_path path =
      scan_stream (run (with_text path (query_row (λ t. select (is_active_at path) t.streams))))

  unfoldable pub get_active_by_stream_key_id : Uuid → Action World Stream
  get_active_by_stream_key_id key =
      scan_stream (run (query_row (λ t. select (is_active_of_key key) t.streams)))

  unfoldable pub list_active : Action World (List Stream)
  list_active = do
    rows ← wrapping "failed to list active streams" (
        run (
          query (λ t.
            order_desc (λ s. s.started_at) (select (λ s. stream_is_active s.status) t.streams))))
    lift (scan_rows rows)

  -- `EndStream`, at the database's time `now`.
  unfoldable pub end_stream : Time → Uuid → Action World (Unit {0})
  end_stream now id = do
    n ← wrapping "failed to end stream" (run (update_streams (is_active_with_id id) (end_row now)))
    affected n

  unfoldable pub end_stream_by_path : Time → String → Action World (Unit {0})
  end_stream_by_path now path = do
    n ←
        wrapping "failed to end stream by path"
          (run (with_text path (update_streams (is_active_at path) (end_row now))))
    affected n
