-- ===== src/Handler/Webhook/Healthy.antt =====
-- What the webhooks of internal/handler/webhook.go do while the database answers.
use mathlib.Core.Bool.{false≢true}
use mathlib.Core.List.{Memᴰ}
use rescuestream_api.Prelude.{
  ◌≡◌, ◌≢◌, refl, sym, ap, ◌∙◌, String, Bool, true, false, not, ◌&&◌, some, List, ◌∷◌, ◌==◌, ==_iff,
  eq_iff, str_eq, arith, inl, inr, Bool-cases, any, head?, All-imp, All-of_any, any_of_All,
  head_select-Mem, All-Memᴰ, update,
}
use rescuestream_api.Domain.{Uuid, Time, nil_uuid, Stream, StreamKey}
use rescuestream_api.Errors.{wrap, ok}
use rescuestream_api.Store.{
  Tables, has_nul, fits, fits_opt, clashes, accept, insert_stream, update_streams,
}
use rescuestream_api.Env.{Env}
use rescuestream_api.Consistency.Keys.{fits-clean}
use rescuestream_api.Store.{varchar, varchar_opt}
use rescuestream_api.Store.Columns.{varchar-fits, varchar_opt-fits}
use rescuestream_api.Env.Healthy.{
  Gives, run_ok, handle_ok, text_some, run_ok_text, bind_Gives, attempt-Gives, pure_after, moved,
  else_Gives,
}
use rescuestream_api.Database.StreamKeyRepo
use rescuestream_api.Database.StreamKeyRepo.{select_by_key_value}
use rescuestream_api.Database.StreamRepo
use rescuestream_api.Database.StreamRepo.{is_active_of_key, is_active_at, end_row}
use rescuestream_api.Service.Auth.Outcome.{in_use, with_key_value}
use rescuestream_api.Service.StreamKeys.Terminate.{affected-Gives}
use rescuestream_api.Handler.Http.{header}
use rescuestream_api.Handler.Webhook.{
  WebhookReadyRequest, non_empty, handle_ready, record_stream, new_stream, handle_not_ready,
}

ne_false : {s : String} → s ≢ "" → str_eq s "" ≡ false
ne_false {s} h = elim (Bool-cases (str_eq s "")) [
  | inl hit ↦ absurd (h ((eq_iff s "").0 hit))
  | inr miss ↦ miss
]

-- The strings of the request fit their columns.
abbrev pub Fits : WebhookReadyRequest → Type 0
Fits req =
    (fits 255 req.path ≡ true)
    × (fits_opt 50 (non_empty req.source_type) ≡ true)
    × (fits_opt 255 (non_empty req.source_id) ≡ true)

-- The tables with the stream of the request added.
abbrev pub with_stream : Uuid → Time → StreamKey → WebhookReadyRequest → Tables → Tables
with_stream fresh now key req t = record t {
  streams = StreamRepo.timed_row (new_stream fresh now key req) ∷ t.streams;
}

any-imp_false :
    {A : Type 0} (p q : A → Bool) (xs : List A)
    → ((x : A) → p x ≡ false → q x ≡ false)
    → any p xs ≡ false
    → any q xs ≡ false
any-imp_false p q xs f h = any_of_All q xs (All-imp xs f (All-of_any p xs h))

Mem-any :
    {A : Type 0} (p : A → Bool) (xs : List A) {x : A} → Memᴰ x xs → p x ≡ true → any p xs ≡ true
Mem-any p xs m h = elim (Bool-cases (any p xs)) [
  | inl hit ↦ hit
  | inr miss ↦ absurd (false≢true (sym (All-Memᴰ _ xs (All-of_any p xs miss) m) ∙ h))
]

and_true : (a b : Bool) → a ≡ true → b ≡ true → (a && b) ≡ true
and_true a b p q = ground arith

accept_all :
    (a b c d e f : Bool) {t : Tables}
    → a ≡ false
    → b ≡ false
    → (c ≡ true) × (d ≡ true) × (e ≡ true) × (f ≡ true)
    → accept (not a && not b && c && d && e && f) t ≡ ok (1, t)
accept_all a b c d e f p q r = ground arith

with_id_lem : (spare : Uuid) (s : Stream) → s.id ≢ nil_uuid → StreamRepo.with_id spare s ≡ s
with_id_lem spare s set = elim (Bool-cases (s.id == nil_uuid)) [
  | inl nil ↦ absurd (set ((==_iff s.id nil_uuid).0 nil))
  | inr other ↦ rw other refl
]

new_row_of :
    (s : Stream)
    → varchar 255 s.path ≡ s.path
    → varchar_opt 50 s.source_type ≡ s.source_type
    → varchar_opt 255 s.source_id ≡ s.source_id
    → StreamRepo.new_row s ≡ StreamRepo.timed_row s
new_row_of s p a b =
    ap (λ v. record (StreamRepo.new_row s) { path = v }) p
    ∙ ap (λ v. record (StreamRepo.new_row s) { path = s.path; source_type = v }) a
    ∙ ap (λ v. record (StreamRepo.timed_row s) { source_id = v }) b

insert_stream-with_stream :
    (fresh spare : Uuid) (now : Time) (key : StreamKey) (req : WebhookReadyRequest) (t : Tables)
    → fresh ≢ nil_uuid
    → Fits req
    → any (λ s. s.id == fresh) t.streams ≡ false
    → in_use t key ≡ false
    → any (λ k. k.id == key.id) t.stream_keys ≡ true
    → insert_stream (StreamRepo.new_row (StreamRepo.with_id spare (new_stream fresh now key req))) t
      ≡ ok (1, with_stream fresh now key req t)
unfolding insert_stream
insert_stream-with_stream fresh spare now key req t set (a, b, c) unused free owned =
    let row = StreamRepo.timed_row (new_stream fresh now key req) in
    let no_clash =
      any-imp_false (is_active_of_key key.id) (clashes row) t.streams (λ s h. ground arith) free in
    ap (λ s. insert_stream (StreamRepo.new_row s) t)
      (with_id_lem spare (new_stream fresh now key req) set)
    ∙ ap (λ r. insert_stream r t)
        (new_row_of (new_stream fresh now key req) (varchar-fits 255 req.path a)
          (varchar_opt-fits 50 (non_empty req.source_type) b)
          (varchar_opt-fits 255 (non_empty req.source_id) c))
    ∙ accept_all (any (λ s. s.id == fresh) t.streams) (any (clashes row) t.streams)
        (any (λ k. k.id == key.id) t.stream_keys) (fits 255 req.path)
        (fits_opt 50 (non_empty req.source_type)) (fits_opt 255 (non_empty req.source_id) && true)
        unused no_clash (owned, a, b, and_true _ _ c refl)

module _ (e : Env) where
  open e use {World, tables, healthy}

  -- The ready webhook of a key that is stored and free records the stream.
  pub handle_ready-Gives :
      (fresh spare : Uuid) (now : Time) (req : WebhookReadyRequest) (w : World) (key : StreamKey)
      → healthy w ≡ true
      → fresh ≢ nil_uuid
      → req.path ≢ ""
      → Fits req
      → any (λ s. s.id == fresh) (tables w).streams ≡ false
      → head? (select_by_key_value req.path (tables w)) ≡ some key
      → in_use (tables w) key ≡ false
      → Gives e
          (handle_ready e fresh spare now (some req))
          w
          (ok (header 204))
          (with_stream fresh now key req (tables w))
  unfolding handle_ready record_stream StreamKeyRepo.get_by_key_value StreamRepo.create
  handle_ready-Gives fresh spare now req w key up set path fits unused found free =
      let looked = attempt-Gives e _ w (
        handle_ok e ok StreamKeyRepo.scan_error _ w (
          text_some e (select_by_key_value req.path) w up req.path (fits-clean 255 req.path fits.0)
            found)) in
      let (m, same) = head_select-Mem (with_key_value req.path) (tables w).stream_keys found in
      let owned =
        Mem-any (λ k. k.id == key.id) (tables w).stream_keys m ((==_iff key.id key.id).1 refl) in
      let inserted = handle_ok e ok (wrap "failed to create stream") _ _ (
        run_ok e (insert_stream _) _ looked.up (
          ap (insert_stream _) looked.left
          ∙ insert_stream-with_stream fresh spare now key req (tables w) set fits unused free
              owned)) in
      let created = attempt-Gives e _ _ (bind_Gives e _ _ _ inserted (pure_after e _ inserted)) in
      else_Gives e _ _ _ (ne_false path)
        (bind_Gives e _ _ w looked (bind_Gives e _ _ _ created (pure_after e _ created)))

  -- The tables with the active streams at a path ended.
  abbrev pub without_path : Time → String → Tables → Tables
  without_path now path t = record t {
    streams = update (is_active_at path) (end_row now) t.streams;
  }

  pub handle_not_ready-Gives :
      (now : Time) (path : String) (w : World)
      → healthy w ≡ true
      → path ≢ ""
      → has_nul path ≡ false
      → Gives e
          (handle_not_ready e now (some (record { path = path })))
          w
          (ok (header 204))
          (without_path now path (tables w))
  unfolding handle_not_ready StreamRepo.end_stream_by_path
  handle_not_ready-Gives now path w up set clean =
      let c =
        handle_ok e ok (wrap "failed to end stream by path") _ w
          (run_ok_text e path (update_streams (is_active_at path) (end_row now)) w up clean refl) in
      let (r, d) = affected-Gives e _ _ c.up in
      let done = moved e (attempt-Gives e _ _ (bind_Gives e _ _ w c d)) c.left in
      else_Gives e _ _ _ (ne_false set) (bind_Gives e _ _ w done (pure_after e _ done))
