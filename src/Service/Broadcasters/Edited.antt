-- ===== src/Service/Broadcasters/Edited.antt =====
-- A broadcaster that is edited (`Update` of internal/service/broadcaster.go).
use rescuestream_api.Prelude.{
  ℕ, String, ◌≡◌, refl, sym, ap, ◌∙◌, length, Bool, true, false, not, ◌&&◌, some, List, [], ◌∷◌,
  any, select, update, head?, count, ◌==◌, ==_iff, arith, inl, inr, Bool-cases, head_select-Mem,
  Option,
}
use rescuestream_api.Domain.{Uuid, Time, Metadata, Broadcaster}
use rescuestream_api.Errors.{ok, wrap}
use rescuestream_api.Store.{
  varchar, takes_json, Stmt, Tables, BroadcasterRow, fits, update_broadcasters,
}
use rescuestream_api.Store.Columns.{varchar-fits}
use rescuestream_api.Env.{Env}
use rescuestream_api.Env.Healthy.{
  Gives, run_ok, handle_ok, bind_Gives, pure_after, else_Gives, moved,
}
use rescuestream_api.Database.StreamRepo.{marshal, unmarshal}
use rescuestream_api.Database.BroadcasterRepo
use rescuestream_api.Database.BroadcasterRepo.{of_row, affected}
use rescuestream_api.Service.Broadcasters as Service
use rescuestream_api.Service.Broadcasters.{UpdateBroadcasterRequest, edited}
use rescuestream_api.Service.Broadcasters.RoundTrip.{get_by_id-Gives, unmarshal-marshal}

-- The first row that is chosen is still chosen, and changed.
head_select-update :
    {A : Type 0} (p : A → Bool) (f : A → A) (xs : List A) {x : A}
    → ((y : A) → p y ≡ true → p (f y) ≡ true)
    → head? (select p xs) ≡ some x
    → head? (select p (update p f xs)) ≡ some (f x)
head_select-update p f [] still h = cc
head_select-update p f (y ∷ ys) {x} still h = elim (Bool-cases (p y)) [
  | inl hit ↦ let eq : some y ≡ some x = rw hit at h in rw (hit, still y hit) cc
  | inr miss ↦ let later = head_select-update p f ys still (rw miss at h) in rw miss (rw miss later)
]

pub count-some :
    {A : Type 0} (p : A → Bool) (xs : List A) {x : A}
    → head? (select p xs) ≡ some x
    → (count p xs == 0) ≡ false
count-some {A} p xs {x} h = by_list (select p xs) h
  where
    by_list : (ys : List A) → head? ys ≡ some x → (length ys == 0) ≡ false
    by_list [] h = cc
    by_list (y ∷ ys) h = ground arith

fitting : (a b : Bool) → b ≡ true → (a && not b) ≡ false
fitting a b h = ground arith

update_broadcasters-fitting :
    (good : Bool) (p : BroadcasterRow → Bool) (f : BroadcasterRow → BroadcasterRow) (t : Tables)
    → good ≡ true
    → update_broadcasters good p f t
      ≡ ok (count p t.broadcasters, record t { broadcasters = update p f t.broadcasters })
update_broadcasters-fitting good p f t h =
    rw (fitting (any p t.broadcasters) good h, update_broadcasters) refl

-- `set_details` for a name of which the column keeps `v`.
abbrev named_details : Time → Broadcaster → String → BroadcasterRow → BroadcasterRow
named_details now b v r = record r {
  display_name = v;
  metadata = marshal b.metadata;
  updated_at = now;
}

abbrev write_details : Time → Broadcaster → String → Stmt ℕ
write_details now b v =
    update_broadcasters (fits 255 v && takes_json (marshal b.metadata)) (λ r. r.id == b.id)
      (named_details now b v)

abbrev pub timed_details : Time → Broadcaster → BroadcasterRow → BroadcasterRow
timed_details now b = named_details now b b.display_name

and_first : (a b : Bool) → (a && b) ≡ true → a ≡ true
and_first a b h = ground arith

-- The tables in which the broadcaster has the details of `b`.
abbrev pub with_details : Time → Broadcaster → Tables → Tables
with_details now b t = record t {
  broadcasters = update (λ r. r.id == b.id) (timed_details now b) t.broadcasters;
}

-- The row with the ID `id`.
abbrev pub find_row : Uuid → Tables → Option BroadcasterRow
find_row id t = head? (select (λ r. r.id == id) t.broadcasters)

-- The row that was edited is found again.
pub find_row-with_details :
    (now : Time) (id : Uuid) (b : Broadcaster) (t : Tables) {r : BroadcasterRow}
    → b.id ≡ id
    → find_row id t ≡ some r
    → find_row id (with_details now b t) ≡ some (timed_details now b r)
find_row-with_details now id b t same found =
    ap (λ i. find_row i (with_details now b t)) (sym same)
    ∙ head_select-update (λ j. j.id == b.id) (timed_details now b) t.broadcasters (λ j h. h)
        (ap (λ i. find_row i t) same ∙ found)

module _ (e : Env) where
  open e use {World, tables, healthy}

  -- While the database answers, the details of a stored broadcaster are replaced.
  update-Gives :
      (now : Time) (b : Broadcaster) (w : World) {r : BroadcasterRow}
      → healthy w ≡ true
      → find_row b.id (tables w) ≡ some r
      → (fits 255 b.display_name && takes_json (marshal b.metadata)) ≡ true
      → Gives e (BroadcasterRepo.update e now b) w (ok tt) (with_details now b (tables w))
  unfolding BroadcasterRepo.update
  update-Gives now b w up found short =
      let done = handle_ok e ok (wrap "failed to update broadcaster") _ w (
        run_ok e (write_details now b (varchar 255 b.display_name)) w up (
          ap (λ v. write_details now b v (tables w))
            (varchar-fits 255 b.display_name (and_first (fits 255 b.display_name) _ short))
          ∙ update_broadcasters-fitting (fits 255 b.display_name && takes_json (marshal b.metadata))
              (λ r. r.id == b.id) (timed_details now b) (tables w) short)) in
      bind_Gives e _ _ w done (
        else_Gives e (count (λ r. r.id == b.id) (tables w).broadcasters == 0) _ _
          (count-some (λ r. r.id == b.id) (tables w).broadcasters found) (pure_after e tt done))

  -- While the database answers, a stored broadcaster gets the given details.
  pub update-Edited :
      (now : Time) (id : Uuid) (req : UpdateBroadcasterRequest) (w : World) (r : BroadcasterRow)
      (m : Metadata)
      → healthy w ≡ true
      → find_row id (tables w) ≡ some r
      → unmarshal r.metadata ≡ ok m
      → (let b = edited req (of_row r m) in
          (fits 255 b.display_name && takes_json (marshal b.metadata)) ≡ true)
      → let b = edited req (of_row r m) in
        Gives e
          (Service.update e now id req)
          w
          (ok (record b { updated_at = now }))
          (with_details now b (tables w))
  unfolding Service.update Service.get_by_id
  update-Edited now id req w r m up found decoded short =
      let b = edited req (of_row r m) in
      let same : r.id ≡ id =
        (==_iff r.id id).0 (head_select-Mem (λ r. r.id == id) (tables w).broadcasters found).1 in
      let read = get_by_id-Gives e id w m up found decoded in
      let w₁ = (Service.get_by_id e id w).1 in
      let written =
        update-Gives now b w₁ read.up
          (ap (find_row r.id) read.left ∙ ap (λ i. find_row i (tables w)) same ∙ found) short in
      let left = written.left ∙ ap (with_details now b) read.left in
      let again =
        get_by_id-Gives e id (BroadcasterRepo.update e now b w₁).1 b.metadata written.up
          (ap (find_row id) left ∙ find_row-with_details now id b (tables w) same found)
          (unmarshal-marshal b.metadata) in
      bind_Gives e _ _ w read (bind_Gives e _ _ w₁ written (moved e again left))
