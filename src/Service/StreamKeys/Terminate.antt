-- ===== src/Service/StreamKeys/Terminate.antt =====
-- The end of a key's stream in `Revoke` of internal/service/streamkey.go, while the database answers.
use mathlib.Core.Bool.{false≢true}
use rescuestream_api.Prelude.{
  ◌≡◌, refl, sym, ap, ◌∙◌, ℕ, String, Bool, true, false, none, some, List, [], ◌∷◌, ◌==◌,
  if◌then◌else◌, arith, inl, inr, Bool-cases, Option-cases, any, select, update, head?, All,
  Pairwise, All-imp, All-update_cases, any_of_All, any_of_head, head_select,
}
use rescuestream_api.Domain.{Uuid, Time, Metadata, Stream}
use rescuestream_api.Errors.{not_found, domain, Result, ok, err, pure, fail}
use rescuestream_api.Store.{Tables, StreamRow, clashes, update_streams}
use rescuestream_api.Store.Invariant.{IsConsistent}
use rescuestream_api.Env.{Env}
use rescuestream_api.Env.Healthy.{
  Gives, run_ok, handle_ok, handle_err, query_some, query_none, bind_Gives, attempt-Gives,
  fail-Gives, pure-Gives, pure_after, moved, answered,
}
use rescuestream_api.Database.StreamRepo
use rescuestream_api.Database.StreamRepo.{
  unmarshal, of_row, scan_row, is_active_of_key, is_active_with_id, end_row,
}
use rescuestream_api.Service.MediaMtx.{kick_path}
use rescuestream_api.Service.MediaMtx.Kicks.{kick_path_apart, kick_path_healthy, kick_path-kicks}
use rescuestream_api.Service.StreamKeys.{terminate, terminate_active}

-- Where a key has one active stream at most, the one found is the only one.
only_active :
    (id : Uuid) (ss : List StreamRow) {s : StreamRow}
    → Pairwise (λ a b. clashes a b ≡ false) ss
    → head? (select (is_active_of_key id) ss) ≡ some s
    → All (λ r. is_active_of_key id r ≡ true → r ≡ s) ss
only_active id [] c h = cc
only_active id (r ∷ rs) {s} c h = elim (Bool-cases (is_active_of_key id r)) [
  | inl hit ↦
      let same : r ≡ s = ground arith in
      (λ _. same, All-imp rs (λ q apart hit'. absurd (both_active r q hit hit' apart)) c.0)
  | inr miss ↦
      let h' : head? (select (is_active_of_key id) rs) ≡ some s = ground arith in
      (λ hit. absurd (false≢true (sym miss ∙ hit)), only_active id rs c.1 h')
]
  where
    both_active :
        (a b : StreamRow)
        → is_active_of_key id a ≡ true
        → is_active_of_key id b ≡ true
        → clashes a b ≡ false
        → ⊥
    both_active a b ha hb hc = ground arith

end_row-no_active :
    (now : Time) (id : Uuid) (ss : List StreamRow) {s : StreamRow}
    → Pairwise (λ a b. clashes a b ≡ false) ss
    → head? (select (is_active_of_key id) ss) ≡ some s
    → any (is_active_of_key id) (update (is_active_with_id s.id) (end_row now) ss) ≡ false
end_row-no_active now id ss {s} c h = any_of_All (is_active_of_key id) _ (
    All-update_cases (λ r. is_active_of_key id r ≡ false) (is_active_with_id s.id) (end_row now) ss
      (All-imp ss (λ r only. (λ _. ended_lem r, λ miss. kept_lem r only miss))
        (only_active id ss c h)))
  where
    ended_lem : (r : StreamRow) → is_active_of_key id (end_row now r) ≡ false
    ended_lem r = ground arith

    kept_lem :
        (r : StreamRow)
        → (is_active_of_key id r ≡ true → r ≡ s)
        → is_active_with_id s.id r ≡ false
        → is_active_of_key id r ≡ false
    kept_lem r only miss = elim (Bool-cases (is_active_of_key id r)) [
      | inl hit ↦ let same = ap (λ (x : StreamRow). x.id) (only hit) in ground arith
      | inr free ↦ free
    ]

scan_row-of_row :
    (s : StreamRow) (m : Metadata) → unmarshal s.metadata ≡ ok m → scan_row s ≡ ok (of_row s m)
scan_row-of_row s m h = ground arith

module _ (e : Env) where
  open e use {World, tables, healthy}

  -- Kicking succeeds and does not touch the database.
  kick_path-Gives :
      (path : String) (w : World)
      → healthy w ≡ true
      → Gives e (kick_path e path) w (ok tt) (tables w)
  kick_path-Gives path w up = record {
    result = ap (λ r. r.0) (kick_path-kicks e path w);
    left = kick_path_apart e path w;
    up = kick_path_healthy e path w ∙ up;
  }

  pub affected-Gives :
      (n : ℕ) (w : World)
      → healthy w ≡ true
      → (r : Result (Unit {0})) × Gives e (StreamRepo.affected n) w r (tables w)
  affected-Gives n w up = by_test (n == 0)
    where
      by_test :
          (b : Bool)
          → (r : Result (Unit {0})) × Gives e
              (if b then fail (domain not_found) else pure tt)
              w
              r
              (tables w)
      by_test true = (err (domain not_found), fail-Gives e w up (domain not_found))
      by_test false = (ok tt, pure-Gives e w up tt)

  -- The tables with the stream `id` ended.
  abbrev pub without_stream : Time → Uuid → Tables → Tables
  without_stream now id t = record t {
    streams = update (is_active_with_id id) (end_row now) t.streams;
  }

  end_stream-Gives :
      (now : Time) (id : Uuid) (w : World)
      → healthy w ≡ true
      → (r : Result (Unit {0})) × Gives e
          (StreamRepo.end_stream e now id)
          w
          r
          (without_stream now id (tables w))
  unfolding StreamRepo.end_stream
  end_stream-Gives now id w up =
      let c =
        handle_ok e ok _ _ w
          (run_ok e (update_streams (is_active_with_id id) (end_row now)) w up refl) in
      let (r, d) = affected-Gives _ _ c.up in (r, bind_Gives e _ _ w c (moved e d c.left))

  terminate-Gives :
      (now : Time) (stream : Stream) (w : World)
      → healthy w ≡ true
      → Gives e (terminate e now stream) w (ok tt) (without_stream now stream.id (tables w))
  unfolding terminate
  terminate-Gives now stream w up =
      let kicked = attempt-Gives e _ w (kick_path-Gives stream.path w up) in
      let (r, d) = end_stream-Gives now stream.id _ kicked.up in
      let done = moved e (attempt-Gives e _ _ d) (ap (without_stream now stream.id) kicked.left) in
      bind_Gives e _ _ w kicked (bind_Gives e _ _ _ done (pure_after e tt done))

  -- The metadata of the key's active stream can be decoded.
  abbrev pub Decodes : Uuid → Tables → Type 0
  Decodes id t =
      All
        (λ (s : StreamRow).
          is_active_of_key id s ≡ true → (m : Metadata) × (unmarshal s.metadata ≡ ok m))
        t.streams

  -- What is left has no active stream of the key, and the keys that there were.
  abbrev pub Ends : Uuid → Tables → Tables → Type 0
  Ends id t t' = (any (is_active_of_key id) t'.streams ≡ false) × (t'.stream_keys ≡ t.stream_keys)

  pub terminate_active-Ends :
      (now : Time) (id : Uuid) (w : World)
      → healthy w ≡ true
      → IsConsistent (tables w)
      → Decodes id (tables w)
      → (t : Tables) × Gives e (terminate_active e now id) w (ok tt) t × Ends id (tables w) t
  unfolding terminate_active StreamRepo.get_active_by_stream_key_id
  terminate_active-Ends now id w up c decodes =
      elim (Option-cases (head? (select (is_active_of_key id) (tables w).streams))) [
        | inl none_found ↦
            let looked = attempt-Gives e _ w (
              handle_err e scan_row StreamRepo.scan_error _ w
                (query_none e (λ t. select (is_active_of_key id) t.streams) w up none_found)) in
            (
              tables w,
              bind_Gives e _ _ w looked (pure_after e tt looked),
              (any_of_head (is_active_of_key id) (tables w).streams none none_found, refl),
            )
        | inr (s, found) ↦
            let (decodes_s, active_s) =
              head_select _ (is_active_of_key id) (tables w).streams found decodes in
            let (m, decoded) = decodes_s active_s in
            let looked = attempt-Gives e _ w (
              handle_ok e scan_row StreamRepo.scan_error _ w
                (query_some e (λ t. select (is_active_of_key id) t.streams) w up found)) in
            let looked' = answered e looked (ap ok (scan_row-of_row s m decoded)) in
            let done = terminate-Gives now (of_row s m) _ looked'.up in
            (
              without_stream now s.id (tables w),
              bind_Gives e _ _ w looked' (moved e done (ap (without_stream now s.id) looked'.left)),
              (end_row-no_active now id (tables w).streams c.streams.one_active found, refl),
            )
      ]
