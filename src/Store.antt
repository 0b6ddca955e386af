-- ===== src/Store.antt =====
-- The tables of internal/database/migrations/000001_initial_schema.up.sql, and what the SQL statements of
-- internal/database and internal/service/auth.go mean on them.
pub mod Invariant
pub mod Columns
use rescuestream_api.Prelude.{
  ℕ, zero, suc, ◌/◌, ◌*◌, String, Bool, true, false, not, ◌&&◌, ◌||◌, Option, none, some, List, [],
  ◌∷◌, any, select, count, update, head?, ltb, ◌==◌, str_eq, if◌then◌else◌,
}
use Prim.Native.String
use Prim.Native.Char.{code}
use rescuestream_api.Domain.{Uuid, Time, StreamKey, StreamStatus, stream_is_active}
use rescuestream_api.Errors.{no_rows, external, Result, ok, err}

-- A value of a JSONB column; `other` is one that is neither null nor an object.
pub data Json : Type 0 where
  null : Json
  object other : String → Json

pub record BroadcasterRow : Type 0 where
  pub id : Uuid
  pub display_name : String
  pub metadata : Json
  pub created_at : Time
  pub updated_at : Time

pub record StreamRow : Type 0 where
  pub id : Uuid
  pub stream_key_id : Uuid
  pub path : String
  pub status : StreamStatus
  pub started_at : Time
  pub ended_at : Option Time
  pub source_type : Option String
  pub source_id : Option String
  pub metadata : Json
  pub recording_ref : Option String

-- A row of `stream_keys` has the fields of a `StreamKey`.
pub record Tables : Type 0 where
  pub broadcasters : List BroadcasterRow
  pub stream_keys : List StreamKey
  pub streams : List StreamRow

-- A statement either is refused and changes nothing, or answers and leaves new tables.
abbrev pub Stmt : Type 0 → Type 0
Stmt A = Tables → Result (A × Tables)

-- The number of characters, which VARCHAR(n) bounds.
abbrev pub characters : String → ℕ
characters String.[] = 0
characters (String.◌∷◌ c s) = suc (characters s)

-- A time as a column of type TIMESTAMPTZ keeps it: pgx sends microseconds, and drops what is less.
abbrev pub to_column : Time → Time
to_column t = t / 1000 * 1000

abbrev pub to_column_opt : Option Time → Option Time
to_column_opt none = none
to_column_opt (some t) = some (to_column t)

-- The text has a character U+0000, which PostgreSQL refuses in every text, also in a JSONB string.
abbrev pub has_nul : String → Bool
has_nul String.[] = false
has_nul (String.◌∷◌ c s) = code c == 0 || has_nul s

abbrev pub fits : ℕ → String → Bool
fits n s = not (has_nul s) && not (ltb n (characters s))

-- Only spaces are beyond the first `n` characters.
abbrev pub only_spaces : ℕ → String → Bool
only_spaces n String.[] = true
only_spaces zero (String.◌∷◌ c s) = code c == 32 && only_spaces zero s
only_spaces (suc n) (String.◌∷◌ c s) = only_spaces n s

abbrev pub cut : ℕ → String → String
cut n String.[] = ""
cut zero (String.◌∷◌ c s) = ""
cut (suc n) (String.◌∷◌ c s) = String.◌∷◌ c (cut n s)

-- The text as VARCHAR(n) keeps it: what is beyond n characters is cut if it is spaces. A text that
-- does not fit then is refused.
abbrev pub varchar : ℕ → String → String
varchar n s = if ltb n (characters s) && only_spaces n s then cut n s else s

abbrev pub varchar_opt : ℕ → Option String → Option String
varchar_opt n none = none
varchar_opt n (some s) = some (varchar n s)

abbrev pub fits_opt : ℕ → Option String → Bool
fits_opt n none = true
fits_opt n (some s) = fits n s

-- The server takes the JSON for a JSONB column; `object` and `other` hold it with every character
-- of its strings as it is.
abbrev pub takes_json : Json → Bool
takes_json Json.null = true
takes_json (Json.object s) = not (has_nul s)
takes_json (Json.other s) = not (has_nul s)

-- A statement with the text as a parameter.
abbrev pub with_text : {A : Type 0} → String → Stmt A → Stmt A
with_text text s t = if has_nul text then err (external "invalid byte sequence") else s t

module _ {R : Type 0} where
  -- SELECT whose first row `QueryRow(...).Scan` takes.
  abbrev pub query_row : (Tables → List R) → Stmt R
  query_row rows t = elim (head? (rows t)) [ none ↦ err no_rows | some r ↦ ok (r, t) ]

  -- SELECT of all rows.
  abbrev pub query : (Tables → List R) → Stmt (List R)
  query rows t = ok (rows t, t)

-- UPDATE stream_keys SET f WHERE p; the number of rows affected.
abbrev pub update_keys : (StreamKey → Bool) → (StreamKey → StreamKey) → Stmt ℕ
update_keys p f t = ok (count p t.stream_keys, record t { stream_keys = update p f t.stream_keys })

-- UPDATE streams SET f WHERE p
abbrev pub update_streams : (StreamRow → Bool) → (StreamRow → StreamRow) → Stmt ℕ
update_streams p f t = ok (count p t.streams, record t { streams = update p f t.streams })

-- UPDATE broadcasters SET f WHERE p; `good` says whether the new values fit their columns, which
-- matters only if a row is written.
abbrev pub update_broadcasters :
    Bool → (BroadcasterRow → Bool) → (BroadcasterRow → BroadcasterRow) → Stmt ℕ
update_broadcasters good p f t =
    if any p t.broadcasters && not good
    then err (external "value too long")
    else ok (count p t.broadcasters, record t { broadcasters = update p f t.broadcasters })

abbrev pub accept : Bool → Tables → Result (ℕ × Tables)
accept good t = if good then ok (1, t) else err (external "constraint violation")

-- INSERT INTO broadcasters: the primary key and the column's length.
unfoldable pub insert_broadcaster : BroadcasterRow → Stmt ℕ
insert_broadcaster b t =
    accept
      (not (any (λ c. c.id == b.id) t.broadcasters)
        && (fits 255 b.display_name && takes_json b.metadata))
      (record t { broadcasters = b ∷ t.broadcasters })

-- INSERT INTO stream_keys: the primary key, UNIQUE (key_value), the foreign key and the length.
unfoldable pub insert_key : StreamKey → Stmt ℕ
insert_key k t =
    accept
      (not (any (λ j. j.id == k.id) t.stream_keys)
        && not (any (λ j. str_eq j.key_value k.key_value) t.stream_keys)
        && any (λ b. b.id == k.broadcaster_id) t.broadcasters
        && fits 64 k.key_value)
      (record t { stream_keys = k ∷ t.stream_keys })

-- The rows of `idx_streams_one_active_per_key` that clash with `s`.
abbrev pub clashes : StreamRow → StreamRow → Bool
clashes s r =
    stream_is_active s.status && stream_is_active r.status && r.stream_key_id == s.stream_key_id

-- INSERT INTO streams: the primary key, the partial unique index, the foreign key and the lengths.
unfoldable pub insert_stream : StreamRow → Stmt ℕ
insert_stream s t =
    accept
      (not (any (λ r. r.id == s.id) t.streams)
        && not (any (clashes s) t.streams)
        && any (λ k. k.id == s.stream_key_id) t.stream_keys
        && fits 255 s.path
        && fits_opt 50 s.source_type
        && (fits_opt 255 s.source_id && takes_json s.metadata))
      (record t { streams = s ∷ t.streams })

-- The key of a stream belongs to a broadcaster.
abbrev pub is_key_of : List StreamKey → Uuid → Uuid → Bool
is_key_of ks broadcaster key = any (λ k. k.broadcaster_id == broadcaster && k.id == key) ks

-- DELETE FROM broadcasters WHERE id = $1, with ON DELETE CASCADE through both foreign keys.
unfoldable pub delete_broadcaster : Uuid → Stmt ℕ
delete_broadcaster id t = ok (
  count (λ b. b.id == id) t.broadcasters,
  record {
    broadcasters = select (λ b. not (b.id == id)) t.broadcasters;
    stream_keys = select (λ k. not (k.broadcaster_id == id)) t.stream_keys;
    streams = select (λ s. not (is_key_of t.stream_keys id s.stream_key_id)) t.streams;
  },
)
