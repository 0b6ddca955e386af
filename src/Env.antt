-- ===== src/Env.antt =====
-- What the program calls and does not implement, as an interface: PostgreSQL behind pgx, and the
-- MediaMTX control API behind gomediamtx.
pub mod Memory
pub mod Reads
pub mod Sorted
pub mod Healthy
pub mod Rules
use mathlib.Core.List.{Perm}
use rescuestream_api.Prelude.{String, ◌≤◌, ◌≡◌, Bool, true, false, ◌⊎◌, Option, List, Pairwise}
use rescuestream_api.Domain.{Time}
use rescuestream_api.Errors.{Error, DomainError, errors_is, is_no_rows, Result, ok, err, Action}
use rescuestream_api.Store.{Tables, Stmt}

-- A connection or session of MediaMTX; both fields are pointers in the client's type.
pub record Conn : Type 0 where
  pub id : Option String
  pub path : Option String

-- The answer to a list call: `JSON200` and its `Items` may each be nil.
abbrev pub Listing : Type 0
Listing = Option (Option (List Conn))

-- An error that a library made: not `pgx.ErrNoRows`, and none of the program's sentinels.
abbrev pub Foreign : Error → Type 0
Foreign x = (is_no_rows x ≡ false) × ((d : DomainError) → errors_is x d ≡ false)

-- A statement answered as it means on the tables, or failed and changed nothing; it fails by the
-- statement's own error (`pgx.ErrNoRows`, a violated constraint) or by one that the driver makes.
abbrev pub Ran : {A : Type 0} → Stmt A → Tables → Result A → Tables → Type 0
Ran s t (ok a) t' = s t ≡ ok (a, t')
Ran s t (err x) t' = (t' ≡ t) × ((s t ≡ err x) ⊎ Foreign x)

module _ {W : Type 0} (tables : W → Tables) (healthy : W → Bool) where
  -- What a call returns and leaves, while the server can be reached.
  abbrev pub Answers : {A : Type 0} → Result (A × Tables) → Tables → Result A × W → Type 0
  Answers (ok (a, t')) t (r, w') = (r ≡ ok a) × (tables w' ≡ t') × (healthy w' ≡ true)
  Answers (err e) t (r, w') = (r ≡ err e) × (tables w' ≡ t) × (healthy w' ≡ true)

  -- The end of a transaction whose function returned `r` in the world `w₂`.
  abbrev pub Ended : {A : Type 0} → Result A × W → Tables → Result A × W → Type 0
  Ended (ok a, w₂) t (r, w') = (r ≡ ok a) × (tables w' ≡ tables w₂) × (healthy w' ≡ true)
  Ended (err e, w₂) t (r, w') = (r ≡ err e) × (tables w' ≡ t) × (healthy w' ≡ true)

  -- A transaction that ended by an error left the tables that it found; one that succeeded ran its
  -- function to a value, and left what the function left.
  abbrev pub Committed : {A : Type 0} → Action W A → Tables → Result A × W → Type 0
  Committed f t (ok a, w') =
      (w₁ : W) × (w₂ : W) × (tables w₁ ≡ t) × (f w₁ ≡ (ok a, w₂)) × (tables w' ≡ tables w₂)
  Committed f t (err e, w') = tables w' ≡ t

-- A call that does not touch the database.
abbrev pub Apart : {W A : Type 0} → (W → Tables) → (W → Bool) → Action W A → Type 0
Apart {W} tables healthy m = (w : W) → (tables (m w).1 ≡ tables w) × (healthy (m w).1 ≡ healthy w)

pub record Env : Type 1 where
  pub World : Type 0
  -- The committed tables, as this session sees them, and whether the server can be reached.
  pub tables : World → Tables
  pub healthy : World → Bool
  -- `pool.Exec`, `pool.Query`, `pool.QueryRow`, and the same on a transaction.
  pub run : {A : Type 0} → Stmt A → Action World A
  -- ORDER BY key DESC; the order of rows with equal keys is the server's.
  pub order_desc : {A : Type 0} → (A → Time) → List A → List A
  -- `pgx.BeginFunc`: begin, call the function, commit if it returns nil and roll back if not.
  pub begin_func : {A : Type 0} → Action World A → Action World A
  -- `pool.Ping`
  pub ping : Action World (Unit {0})
  -- The client's `RtmpConnsList`, `RtmpConnsKick`, `RtspSessionsList` and `RtspSessionsKick`.
  pub rtmp_list : Action World Listing
  pub rtmp_kick : String → Action World (Unit {0})
  pub rtsp_list : Action World Listing
  pub rtsp_kick : String → Action World (Unit {0})
  -- A statement is atomic.
  pub run_lem :
      {A : Type 0} (s : Stmt A) (w : World) → Ran s (tables w) (run s w).0 (tables (run s w).1)
  pub run_healthy :
      {A : Type 0} (s : Stmt A) (w : World)
      → healthy w ≡ true
      → Answers tables healthy (s (tables w)) (tables w) (run s w)
  pub order_perm : {A : Type 0} (by : A → Time) (rows : List A) → Perm (order_desc by rows) rows
  pub order_sorted :
      {A : Type 0} (by : A → Time) (rows : List A)
      → Pairwise (λ a b. by b ≤ by a) (order_desc by rows)
  -- A transaction is atomic.
  pub begin_lem :
      {A : Type 0} (f : Action World A) (w : World)
      → Committed tables healthy f (tables w) (begin_func f w)
  pub begin_healthy :
      {A : Type 0} (f : Action World A) (w : World)
      → healthy w ≡ true
      → (w₁ : World) × (tables w₁ ≡ tables w)
        × (healthy w₁ ≡ true)
        × (healthy (f w₁).1 ≡ true → Ended tables healthy (f w₁) (tables w) (begin_func f w))
  pub ping_lem : Apart tables healthy ping
  pub ping_healthy : (w : World) → healthy w ≡ true → (ping w).0 ≡ ok tt
  pub rtmp_list_lem : Apart tables healthy rtmp_list
  pub rtmp_kick_lem : (id : String) → Apart tables healthy (rtmp_kick id)
  pub rtsp_list_lem : Apart tables healthy rtsp_list
  pub rtsp_kick_lem : (id : String) → Apart tables healthy (rtsp_kick id)
