-- ===== src/Handler/Broadcasters/ReadBack.antt =====
-- The responses of internal/handler/broadcaster.go to a request that stores a broadcaster and to
-- the one that reads it back.
use rescuestream_api.Prelude.{
  ◌≡◌, ◌≢◌, refl, ap, ◌∙◌, String, Option, Bool, ◌&&◌, ◌/◌, ◌*◌, arith, some, none, sym,
  head_select-Mem, true, false, any, ◌==◌, ==_iff, str_eq,
}
use rescuestream_api.Domain.{Uuid, Time, Metadata, nil_map, object, nil_uuid, Broadcaster}
use rescuestream_api.Errors.{ok}
use rescuestream_api.Store.{BroadcasterRow, fits, takes_json}
use rescuestream_api.Env.{Env}
use rescuestream_api.Database.StreamRepo.{marshal, unmarshal}
use rescuestream_api.Database.BroadcasterRepo.{of_row, timed_row}
use rescuestream_api.Service.Broadcasters as Service
use rescuestream_api.Service.Broadcasters.{
  CreateBroadcasterRequest, UpdateBroadcasterRequest, edited, or_empty, new_name, new_metadata,
}
use rescuestream_api.Service.Broadcasters.RoundTrip.{
  made_of, with_row, create-Gives, get_by_id-Gives, unmarshal-marshal,
}
use rescuestream_api.Service.Broadcasters.Edited.{update-Edited, find_row, find_row-with_details}
use rescuestream_api.Handler.Http.{get, post, patch, json, map_domain_error, respond}
use rescuestream_api.Service.Streams.Listed.{SameMetadata, SameMetadata-unmarshal}
use rescuestream_api.Handler.Http.Respond.{respond_ok}
use rescuestream_api.Handler.Broadcasters.{
  broadcaster, BroadcasterInputs, BroadcasterRequest, serve_http, serve_one, serve_all,
  get_broadcaster, create_broadcaster, update_broadcaster, update_parsed,
}

-- `POST` of a new broadcaster, and `GET` and `PATCH` of the one whose ID is `text`.
abbrev pub posting : CreateBroadcasterRequest → BroadcasterRequest
posting req = record { method = post; id = ""; to_create = some req; to_update = none }

abbrev pub getting : String → BroadcasterRequest
getting text = record { method = get; id = text; to_create = none; to_update = none }

abbrev pub patching : String → UpdateBroadcasterRequest → BroadcasterRequest
patching text req = record { method = patch; id = text; to_create = none; to_update = some req }

-- A field that is given replaces the old value, and one that is not keeps it.
abbrev pub Replaced : Option String → String → String → Type 0
Replaced none old new = new ≡ old
Replaced (some given) old new = new ≡ given

abbrev pub ReplacedMap : Metadata → Metadata → Metadata → Type 0
ReplacedMap nil_map old new = new ≡ old
ReplacedMap (object s) old new = new ≡ object s

new_name-Replaced :
    (given : Option String) (old new : String) → Replaced given old new → new_name given old ≡ new
new_name-Replaced none old new h = sym h
new_name-Replaced (some s) old new h = sym h

new_metadata-ReplacedMap :
    (given old new : Metadata) → ReplacedMap given old new → new_metadata given old ≡ new
new_metadata-ReplacedMap nil_map old new h = sym h
new_metadata-ReplacedMap (object s) old new h = sym h

or_empty-ReplacedMap :
    (given new : Metadata) → ReplacedMap given (object "{}") new → or_empty given ≡ new
or_empty-ReplacedMap nil_map new h = sym h
or_empty-ReplacedMap (object s) new h = sym h

and_true : (a b : Bool) → a ≡ true → b ≡ true → (a && b) ≡ true
and_true a b p q = ground arith

record_of :
    (updated created : Time) {id id' : Uuid} {name name' : String} {m m' : Metadata}
    → id ≡ id'
    → name ≡ name'
    → m ≡ m'
    → ◌≡◌ {A = Broadcaster}
        (record {
          id = id;
          display_name = name;
          metadata = m;
          created_at = created;
          updated_at = updated;
        })
        (record {
          id = id';
          display_name = name';
          metadata = m';
          created_at = created;
          updated_at = updated;
        })
record_of updated created p q r = cc

module _ (e : Env) (parse_uuid : String → Option Uuid) where
  open e use {World, tables, healthy}

  get-Found :
      (i : BroadcasterInputs) (text : String) (id : Uuid) (w : World) {r : BroadcasterRow}
      (m : Metadata)
      → healthy w ≡ true
      → str_eq text "" ≡ false
      → parse_uuid text ≡ some id
      → find_row id (tables w) ≡ some r
      → unmarshal r.metadata ≡ ok m
      → (serve_http e parse_uuid i (getting text) w).0 ≡ json 200 (broadcaster (of_row r m))
  unfolding serve_http serve_one get_broadcaster
  get-Found i text id w m up given parsed found decoded =
      let read = get_by_id-Gives e id w m up found decoded in
      rw (given, parsed, get_broadcaster)
        (ap (λ a. a.0)
          (respond_ok (λ b. json 200 (broadcaster b)) map_domain_error (Service.get_by_id e id) w
            read.result))

  -- While the database answers, a request to create a broadcaster with a name that is not empty
  -- and fits and with metadata that the server takes, under an ID that is not in use, is answered with 201 and
  -- the broadcaster, whose metadata are empty if none were given; and a request for that ID is then
  -- answered with 200 and the same broadcaster, its two times cut to microseconds.
  pub post_then_get :
      (i i' : BroadcasterInputs) (req : CreateBroadcasterRequest) (text : String) (w : World)
      (data' : Metadata)
      → healthy w ≡ true
      → str_eq req.display_name "" ≡ false
      → fits 255 req.display_name ≡ true
      → ReplacedMap req.metadata (object "{}") data'
      → takes_json (marshal data') ≡ true
      → i.fresh ≢ nil_uuid
      → any (λ b. b.id == i.fresh) (tables w).broadcasters ≡ false
      → str_eq text "" ≡ false
      → parse_uuid text ≡ some i.fresh
      → let b : Broadcaster = record {
        id = i.fresh;
        display_name = req.display_name;
        metadata = data';
        created_at = i.created;
        updated_at = i.updated;
      } in
        let stored : Broadcaster = record b {
          created_at = i.created / 1000 * 1000;
          updated_at = i.updated / 1000 * 1000;
        } in
        let made = serve_http e parse_uuid i (posting req) w in
        (made.0 ≡ json 201 (broadcaster b))
        × ((serve_http e parse_uuid i' (getting text) made.1).0 ≡ json 200 (broadcaster stored))
  unfolding serve_http serve_all create_broadcaster
  post_then_get i i' req text w data' up named short mapped taken set new_id given parsed =
      let b = made_of i.fresh i.created i.updated req in
      let m = Service.create e i.fresh i.spare i.created i.updated req in
      let map_same = or_empty-ReplacedMap req.metadata data' mapped in
      let good = and_true _ _ short (ap (λ x. takes_json (marshal x)) map_same ∙ taken) in
      let stored = create-Gives e i.fresh i.spare i.created i.updated req w up set new_id good in
      let answer = respond_ok (λ b. json 201 (broadcaster b)) map_domain_error m w stored.result in
      let found : find_row i.fresh (with_row (timed_row b) (tables w)) ≡ some (timed_row b) =
        rw ((==_iff i.fresh i.fresh).1 refl) refl in
      let again =
        get-Found i' text i.fresh (m w).1 b.metadata stored.up given parsed
          (ap (find_row i.fresh) stored.left ∙ found) (unmarshal-marshal b.metadata) in
      rw named (
        ap (λ a. a.0) answer
            ∙ ap (λ b. json 201 (broadcaster b)) (record_of i.updated i.created refl refl map_same),
        again
            ∙ ap (λ b. json 200 (broadcaster b))
                (record_of (i.updated / 1000 * 1000) (i.created / 1000 * 1000) refl refl map_same),
      )

  serve_http-patching :
      (i : BroadcasterInputs) (req : UpdateBroadcasterRequest) (text : String) (id : Uuid)
      (w : World)
      → str_eq text "" ≡ false
      → parse_uuid text ≡ some id
      → serve_http e parse_uuid i (patching text req) w
        ≡ respond
            (λ b. json 200 (broadcaster b))
            map_domain_error
            (Service.update e i.db_now id req)
            w
  unfolding serve_http serve_one update_broadcaster update_parsed
  serve_http-patching i req text id w given parsed = rw (given, parsed, update_broadcaster) refl

  -- The same in the words of the code.
  patch_edited :
      (i i' : BroadcasterInputs) (req : UpdateBroadcasterRequest) (text : String) (id : Uuid)
      (w : World) (r : BroadcasterRow) (m : Metadata)
      → healthy w ≡ true
      → str_eq text "" ≡ false
      → parse_uuid text ≡ some id
      → find_row id (tables w) ≡ some r
      → unmarshal r.metadata ≡ ok m
      → (let b = edited req (of_row r m) in
          (fits 255 b.display_name && takes_json (marshal b.metadata)) ≡ true)
      → let b = record (edited req (of_row r m)) { updated_at = i.db_now } in
        let done = serve_http e parse_uuid i (patching text req) w in
        (done.0 ≡ json 200 (broadcaster b))
        × ((serve_http e parse_uuid i' (getting text) done.1).0 ≡ json 200 (broadcaster b))
  patch_edited i i' req text id w r m up given parsed found decoded short =
      let b = edited req (of_row r m) in
      let act = Service.update e i.db_now id req in
      let stored = update-Edited e i.db_now id req w r m up found decoded short in
      let answer =
        respond_ok (λ b. json 200 (broadcaster b)) map_domain_error act w stored.result in
      let same : r.id ≡ id =
        (==_iff r.id id).0 (head_select-Mem (λ r. r.id == id) (tables w).broadcasters found).1 in
      let again =
        get-Found i' text id (act w).1 b.metadata stored.up given parsed
          (ap (find_row id) stored.left ∙ find_row-with_details i.db_now id b (tables w) same found)
          (unmarshal-marshal b.metadata) in
      let served = serve_http-patching i req text id w given parsed in
      (
        ap (λ a. a.0) (served ∙ answer),
        ap (λ a. (serve_http e parse_uuid i' (getting text) a.1).0) served ∙ again,
      )

  -- While the database answers, a request that edits a stored broadcaster, whose metadata decodes,
  -- to a name that fits and metadata that the server takes is answered with 200 and the broadcaster with the given fields replaced and the
  -- others kept; and a request for the ID is then answered with 200 and the same broadcaster.
  pub patch_then_get :
      (i i' : BroadcasterInputs) (req : UpdateBroadcasterRequest) (text : String) (id : Uuid)
      (w : World) (r : BroadcasterRow) (m : Metadata) (name : String) (data' : Metadata)
      → healthy w ≡ true
      → str_eq text "" ≡ false
      → parse_uuid text ≡ some id
      → find_row id (tables w) ≡ some r
      → SameMetadata r.metadata m
      → Replaced req.display_name r.display_name name
      → ReplacedMap req.metadata m data'
      → fits 255 name ≡ true
      → takes_json (marshal data') ≡ true
      → let b : Broadcaster = record {
        id = id;
        display_name = name;
        metadata = data';
        created_at = r.created_at;
        updated_at = i.db_now;
      } in
        let done = serve_http e parse_uuid i (patching text req) w in
        (done.0 ≡ json 200 (broadcaster b))
        × ((serve_http e parse_uuid i' (getting text) done.1).0 ≡ json 200 (broadcaster b))
  patch_then_get i i' req text id w r m name data' up given parsed found decoded named mapped short
        taken =
      let same : r.id ≡ id =
        (==_iff r.id id).0 (head_select-Mem (λ r. r.id == id) (tables w).broadcasters found).1 in
      let name_same = new_name-Replaced req.display_name r.display_name name named in
      let map_same = new_metadata-ReplacedMap req.metadata m data' mapped in
      let got =
        patch_edited i i' req text id w r m up given parsed found
          (SameMetadata-unmarshal r.metadata m decoded)
          (and_true _ _ (ap (fits 255) name_same ∙ short)
            (ap (λ x. takes_json (marshal x)) map_same ∙ taken)) in
      let whole =
        record_of i.db_now r.created_at same name_same
          (new_metadata-ReplacedMap req.metadata m data' mapped) in
      (
        got.0 ∙ ap (λ b. json 200 (broadcaster b)) whole,
        got.1 ∙ ap (λ b. json 200 (broadcaster b)) whole,
      )
