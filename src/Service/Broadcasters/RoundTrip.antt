-- ===== src/Service/Broadcasters/RoundTrip.antt =====
-- A broadcaster that is stored is read back (internal/service/broadcaster.go and
-- internal/database/broadcaster_repo.go).
use rescuestream_api.Prelude.{
  ◌≡◌, ◌≢◌, refl, ap, ◌∙◌, Bool, true, false, not, ◌&&◌, some, ◌∷◌, any, select, head?, ◌==◌,
  ==_iff, arith, inl, inr, Bool-cases,
}
use rescuestream_api.Domain.{Uuid, Time, Metadata, nil_map, object, nil_uuid, Broadcaster}
use rescuestream_api.Errors.{ok, wrap}
use rescuestream_api.Store.{takes_json, Tables, BroadcasterRow, accept, insert_broadcaster, fits}
use rescuestream_api.Store.Columns.{varchar-fits}
use rescuestream_api.Env.{Env}
use rescuestream_api.Env.Healthy.{
  Gives, run_ok, query_some, handle_ok, bind_Gives, pure_after, answered,
}
use rescuestream_api.Database.StreamRepo.{marshal, unmarshal}
use rescuestream_api.Database.BroadcasterRepo
use rescuestream_api.Database.BroadcasterRepo.{of_row, new_row, timed_row, scan_row}
use rescuestream_api.Service.Broadcasters.{CreateBroadcasterRequest, or_empty, create, get_by_id}

pub unmarshal-marshal : (m : Metadata) → unmarshal (marshal m) ≡ ok m
unmarshal-marshal nil_map = refl
unmarshal-marshal (object s) = refl

scan_row-decoded :
    (r : BroadcasterRow) (m : Metadata) → unmarshal r.metadata ≡ ok m → scan_row r ≡ ok (of_row r m)
scan_row-decoded r m decoded = rw (decoded, scan_row) refl

with_id_lem :
    (spare : Uuid) (b : Broadcaster) → b.id ≢ nil_uuid → BroadcasterRepo.with_id spare b ≡ b
with_id_lem spare b set = elim (Bool-cases (b.id == nil_uuid)) [
  | inl nil ↦ absurd (set ((==_iff b.id nil_uuid).0 nil))
  | inr other ↦ rw other refl
]

and_first : (a b : Bool) → (a && b) ≡ true → a ≡ true
and_first a b h = ground arith

accept_both : (a b : Bool) (t : Tables) → a ≡ false → b ≡ true → accept (not a && b) t ≡ ok (1, t)
accept_both a b t p q = ground arith

-- The broadcaster that `Create` makes of a request.
abbrev pub made_of : Uuid → Time → Time → CreateBroadcasterRequest → Broadcaster
made_of fresh created updated req = record {
  id = fresh;
  display_name = req.display_name;
  metadata = or_empty req.metadata;
  created_at = created;
  updated_at = updated;
}

abbrev pub with_row : BroadcasterRow → Tables → Tables
with_row r t = record t { broadcasters = r ∷ t.broadcasters }

module _ (e : Env) where
  open e use {World, tables, healthy}

  -- While the database answers, a broadcaster whose ID is new and whose name fits is stored.
  pub create-Gives :
      (fresh spare : Uuid) (created updated : Time) (req : CreateBroadcasterRequest) (w : World)
      → healthy w ≡ true
      → fresh ≢ nil_uuid
      → any (λ b. b.id == fresh) (tables w).broadcasters ≡ false
      → (fits 255 req.display_name && takes_json (marshal (or_empty req.metadata))) ≡ true
      → let b = made_of fresh created updated req in
        Gives e
          (create e fresh spare created updated req)
          w
          (ok b)
          (with_row (timed_row b) (tables w))
  unfolding create BroadcasterRepo.create insert_broadcaster
  create-Gives fresh spare created updated req w up set new_id short =
      let b = made_of fresh created updated req in
      let same = with_id_lem spare b set in
      let stored = handle_ok e ok (wrap "failed to create broadcaster") _ w (
        run_ok e (insert_broadcaster (new_row (BroadcasterRepo.with_id spare b))) w up (
          ap (λ c. insert_broadcaster (new_row c) (tables w)) same
          ∙ ap (λ v. insert_broadcaster (record (timed_row b) { display_name = v }) (tables w))
              (varchar-fits 255 req.display_name (and_first (fits 255 req.display_name) _ short))
          ∙ accept_both (any (λ c. c.id == fresh) (tables w).broadcasters)
              (fits 255 req.display_name && takes_json (marshal (or_empty req.metadata))) _ new_id
              short)) in
      bind_Gives e _ _ w stored
        (answered e (pure_after e (BroadcasterRepo.with_id spare b) stored) (ap ok same))

  -- While the database answers, a stored broadcaster whose metadata decodes is returned.
  pub get_by_id-Gives :
      (id : Uuid) (w : World) {r : BroadcasterRow} (m : Metadata)
      → healthy w ≡ true
      → head? (select (λ b. b.id == id) (tables w).broadcasters) ≡ some r
      → unmarshal r.metadata ≡ ok m
      → Gives e (get_by_id e id) w (ok (of_row r m)) (tables w)
  unfolding get_by_id BroadcasterRepo.get_by_id
  get_by_id-Gives id w {r} m up found decoded =
      answered e
        (handle_ok e scan_row BroadcasterRepo.scan_error _ w
          (query_some e (λ t. select (λ b. b.id == id) t.broadcasters) w up found))
        (scan_row-decoded r m decoded)
