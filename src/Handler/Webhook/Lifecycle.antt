-- ===== src/Handler/Webhook/Lifecycle.antt =====
-- A stream from its ready webhook to its not-ready webhook (internal/handler/webhook.go), while the
-- database answers.

use mathlib.Core.Bool.{false≢true}
use mathlib.Core.List.{Memᴰ}
use rescuestream_api.Consistency.Keys.{fits-clean}
use rescuestream_api.Prelude.{
  ◌≡◌, ◌≢◌, refl, sym, ap, ◌∙◌, subst, String, true, false, some, List, ◌∷◌, ◌==◌, eq_iff, str_eq,
  arith, inl, inr, Bool-cases, any, head?, All-imp, All-of_any, any_of_All, head_select-Mem,
  All-Memᴰ, only_with_value, update, All-update_cases,
}
use rescuestream_api.Domain.{Uuid, Time, nil_uuid, StreamKey}
use rescuestream_api.Store.{Tables, StreamRow}
use rescuestream_api.Store.Invariant.{IsConsistent}
use rescuestream_api.Env.{Env}
use rescuestream_api.Database.StreamKeyRepo.{select_by_key_value}
use rescuestream_api.Database.StreamRepo
use rescuestream_api.Database.StreamRepo.{is_active_of_key, is_active_at, end_row}
use rescuestream_api.Service.Auth.{AuthRequest, shown_key, authenticate}
use rescuestream_api.Service.Auth.Outcome.{in_use, with_key_value}
use rescuestream_api.Service.Auth.Access.{is_allowed, Usable, authenticate_allowed_iff}
use rescuestream_api.Handler.Webhook.{
  WebhookReadyRequest, handle_ready, new_stream, handle_not_ready,
}
use rescuestream_api.Consistency.Requests.{handle_ready-Keeps}
use rescuestream_api.Consistency.Rules.{consistency_uses}
use rescuestream_api.Handler.Webhook.Healthy.{
  Fits, with_stream, without_path, handle_ready-Gives, handle_not_ready-Gives,
}

-- Ending the streams at a path frees the key, if its only active stream is at that path.
freed :
    (now : Time) (path : String) (id : Uuid) (s : StreamRow) (ss : List StreamRow)
    → str_eq s.path path ≡ true
    → any (is_active_of_key id) ss ≡ false
    → any (is_active_of_key id) (update (is_active_at path) (end_row now) (s ∷ ss)) ≡ false
freed now path id s ss there free =
    any_of_All (is_active_of_key id) (update (is_active_at path) (end_row now) (s ∷ ss)) (
      All-update_cases (λ r. is_active_of_key id r ≡ false) (is_active_at path) (end_row now)
        (s ∷ ss)
        ((
          (λ _. ended_lem s, λ miss. ground arith),
          All-imp ss (λ r h. (λ _. ended_lem r, λ _. h)) (All-of_any (is_active_of_key id) ss free),
        )))
  where
    ended_lem : (r : StreamRow) → is_active_of_key id (end_row now r) ≡ false
    ended_lem r = ground arith

-- A key whose value is that of a key in use is not usable.
in_use-Usable :
    (now : Time) (t : Tables) (key : StreamKey)
    → IsConsistent t
    → Memᴰ key t.stream_keys
    → in_use t key ≡ true
    → ¬ Usable now t key.key_value
in_use-Usable now t key c m used u =
    let only = only_with_value (λ (k : StreamKey). k.key_value) t.stream_keys c.keys.values m in
    let same = All-Memᴰ _ t.stream_keys only u.stored u.shown in
    absurd (false≢true (sym u.unused ∙ ap (in_use t) same ∙ used))

new_stream-in_use :
    (fresh : Uuid) (now : Time) (key : StreamKey) (req : WebhookReadyRequest) (t : Tables)
    → in_use (with_stream fresh now key req t) key ≡ true
new_stream-in_use fresh now key req t = ground arith

module _ (e : Env) where
  open e use {World, tables, healthy}

  -- While the database answers and is consistent, let a ready webhook carry the value of a stored
  -- key that is free, strings that fit their columns, and a new stream ID that is not `uuid.Nil`.
  -- From then on the key is in use, and no publish request that shows its value is let in; after a
  -- not-ready webhook with the same path it is free again.
  pub stream_lifecycle :
      (fresh spare : Uuid) (now : Time) (req : WebhookReadyRequest) (w : World) (key : StreamKey)
      → healthy w ≡ true
      → IsConsistent (tables w)
      → fresh ≢ nil_uuid
      → req.path ≢ ""
      → Fits req
      → any (λ s. s.id == fresh) (tables w).streams ≡ false
      → head? (select_by_key_value req.path (tables w)) ≡ some key
      → in_use (tables w) key ≡ false
      → let w₁ = (handle_ready e fresh spare now (some req) w).1 in
        (in_use (tables w₁) key ≡ true)
        × ((later db_later : Time) (login : AuthRequest)
            → login.action ≡ "publish"
            → shown_key login ≡ req.path
            → is_allowed (authenticate e later db_later login w₁).0 ≡ false)
        × ((end : Time)
            → let w₂ = (handle_not_ready e end (some (record { path = req.path })) w₁).1 in
              in_use (tables w₂) key ≡ false)
  stream_lifecycle fresh spare now req w key up c set path fitting unused found free =
      let ready =
        handle_ready-Gives e fresh spare now req w key up set path fitting unused found free in
      let (m, same) = head_select-Mem (with_key_value req.path) (tables w).stream_keys found in
      let t₁ = with_stream fresh now key req (tables w) in
      let c₁ = handle_ready-Keeps e IsConsistent consistency_uses fresh spare now (some req) w c in
      let value = (eq_iff key.key_value req.path).0 same in
      let used = new_stream-in_use fresh now key req (tables w) in
      let taken =
        subst (λ t. IsConsistent t → (n : Time) → ¬ Usable n t req.path) (sym ready.left)
          (λ c' n u. in_use-Usable n t₁ key c' m used (subst (λ v. Usable n t₁ v) (sym value) u))
          c₁ in
      (
        ap (λ t. in_use t key) ready.left ∙ used,
        λ later db_later login publish shows.
            elim (Bool-cases (is_allowed (authenticate e later db_later login _).0)) [
              | inl allowed ↦ absurd (
                  taken later (
                    subst (Usable later (tables _)) shows (
                      (authenticate_allowed_iff e later db_later login _ publish
                          (λ none_shown. path (sym shows ∙ none_shown))).0
                        allowed)))
              | inr refused ↦ refused
            ],
        λ end.
            let ended =
              handle_not_ready-Gives e end req.path _ ready.up path
                (fits-clean 255 req.path fitting.0) in
            ap (λ t. in_use t key) (ended.left ∙ ap (without_path e end req.path) ready.left)
            ∙ freed end req.path key.id (StreamRepo.timed_row (new_stream fresh now key req))
                (tables w).streams ((eq_iff req.path req.path).1 refl) free,
      )
