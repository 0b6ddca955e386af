-- ===== src/Handler/Broadcasters/Deletion.antt =====
-- The response to `DELETE` of internal/handler/broadcaster.go, and what the keys of a deleted
-- broadcaster are worth.
use mathlib.Core.Bool.{false≢true}
use mathlib.Core.List.{Memᴰ}
use rescuestream_api.Prelude.{
  ◌≡◌, ◌≢◌, refl, sym, ap, ◌∙◌, subst, Bool, String, Option, none, some, List, [], ◌∷◌, true, false,
  any, select, count, ◌==◌, str_eq, inl, inr, Bool-cases, if◌then◌else◌, All-Memᴰ, only_with_value,
  head_select-some,
}
use rescuestream_api.Domain.{Uuid, Time, StreamKey}
use rescuestream_api.Errors.{domain, not_found, Result, ok, err, wrap}
use rescuestream_api.Store.{Tables, delete_broadcaster}
use rescuestream_api.Store.Invariant.{IsConsistent}
use rescuestream_api.Env.{Env}
use rescuestream_api.Env.Healthy.{run_ok, handle_ok, bind_Gives, pure_after, then_Gives, else_Gives}
use rescuestream_api.Database.BroadcasterRepo
use rescuestream_api.Service.Auth.{AuthRequest, shown_key, authenticate}
use rescuestream_api.Service.Auth.Access.{is_allowed, Usable, authenticate_allowed_iff}
use rescuestream_api.Service.Broadcasters as Service
use rescuestream_api.Service.Broadcasters.Cascade.{Cascaded, delete_broadcaster-Cascaded}
use rescuestream_api.Service.Broadcasters.Edited.{count-some}
use rescuestream_api.Handler.Http.{delete, header, status_of, map_domain_error, respond}
use rescuestream_api.Handler.Broadcasters.{
  BroadcasterPayload, BroadcasterInputs, BroadcasterRequest, serve_http, serve_one,
}
use rescuestream_api.Handler.Broadcasters as Handler
use rescuestream_api.Handler.Http.Respond.{respond_ok, respond_err}

select-none : {A : Type 0} (p : A → Bool) (xs : List A) → any p xs ≡ false → select p xs ≡ []
select-none p [] h = refl
select-none p (y ∷ ys) h = elim (Bool-cases (p y)) [
  | inl hit ↦ let no : true ≡ false = rw hit at h in absurd (false≢true (sym no))
  | inr miss ↦ rw miss (select-none p ys (rw miss at h))
]

-- `DELETE` of the broadcaster whose ID is `text`.
abbrev pub deleting : String → BroadcasterRequest
deleting text = record { method = delete; id = text; to_create = none; to_update = none }

module _ (e : Env) where
  open e use {World, tables, healthy}

  -- In consistent tables no key of the broadcaster can be used once it is deleted.
  delete_unusable :
      (id : Uuid) (k : StreamKey) (later : Time) (t t' : Tables)
      → IsConsistent t
      → Memᴰ k t.stream_keys
      → k.broadcaster_id ≡ id
      → Cascaded id t t'
      → ¬ Usable later t' k.key_value
  delete_unusable id k later t t' c stored owner gone u =
      let (there, other) = (gone.keys u.key).0 u.stored in
      let same : u.key ≡ k =
        All-Memᴰ (λ j. j.key_value ≡ k.key_value → j ≡ k) t.stream_keys
          (only_with_value (λ (j : StreamKey). j.key_value) t.stream_keys c.keys.values stored)
          there u.shown in
      other (ap (λ (j : StreamKey). j.broadcaster_id) same ∙ owner)

  module _ (id : Uuid) (w : World) (up : healthy w ≡ true) where
    -- The call returns `r`, and the cascade is done.
    abbrev Deleted : Result (Unit {0}) → Type 0
    Deleted r =
        ((Service.delete e id w).0 ≡ r) × Cascaded id (tables w) (tables (Service.delete e id w).1)

    delete_stored : any (λ b. b.id == id) (tables w).broadcasters ≡ true → Deleted (ok tt)
    unfolding Service.delete BroadcasterRepo.delete delete_broadcaster
    delete_stored known =
        let done =
          handle_ok e ok (wrap "failed to delete broadcaster") _ w
            (run_ok e (delete_broadcaster id) w up refl) in
        let (r, found) = head_select-some (λ b. b.id == id) (tables w).broadcasters known in
        let g = bind_Gives e _ _ w done (
          else_Gives e (count (λ b. b.id == id) (tables w).broadcasters == 0) _ _
            (count-some (λ b. b.id == id) (tables w).broadcasters found) (pure_after e tt done)) in
        (
          g.result,
          subst (Cascaded id (tables w)) (sym g.left)
              (delete_broadcaster-Cascaded id (tables w) _ _ refl),
        )

    delete_unknown :
        any (λ b. b.id == id) (tables w).broadcasters ≡ false → Deleted (err (domain not_found))
    unfolding Service.delete BroadcasterRepo.delete delete_broadcaster
    delete_unknown unknown =
        let done =
          handle_ok e ok (wrap "failed to delete broadcaster") _ w
            (run_ok e (delete_broadcaster id) w up refl) in
        let g = bind_Gives e _ _ w done (
          then_Gives e (count (λ b. b.id == id) (tables w).broadcasters == 0) _ _
            (rw (select-none (λ b. b.id == id) (tables w).broadcasters unknown) refl)
            (record { result = refl; left = done.left; up = done.up })) in
        (
          g.result,
          subst (Cascaded id (tables w)) (sym g.left)
              (delete_broadcaster-Cascaded id (tables w) _ _ refl),
        )

  module _ (parse_uuid : String → Option Uuid) (i : BroadcasterInputs) (text : String) (id : Uuid)
      (w : World) (up : healthy w ≡ true) (given : str_eq text "" ≡ false)
      (parsed : parse_uuid text ≡ some id) where
    serve_http-deleting :
        serve_http e parse_uuid i (deleting text) w
        ≡ respond (λ _. header 204) map_domain_error (Service.delete e id) w
    unfolding serve_http serve_one Handler.delete_broadcaster
    serve_http-deleting = rw (given, parsed, Handler.delete_broadcaster) refl

    not_found-status : (map_domain_error (domain not_found)).status ≡ 404
    unfolding map_domain_error
    not_found-status = refl

    -- While the database answers, the deletion of a broadcaster is answered with 204 if its ID is
    -- stored and with 404 if it is not; and what is left is every other broadcaster, every key
    -- of another broadcaster, and every stream that has no key of this one.
    pub delete_answers :
        let answer = serve_http e parse_uuid i (deleting text) w in
        (status_of answer.0 ≡ (if any (λ b. b.id == id) (tables w).broadcasters then 204 else 404))
        × Cascaded id (tables w) (tables answer.1)
    delete_answers = elim (Bool-cases (any (λ b. b.id == id) (tables w).broadcasters)) [
      | inl known ↦
          let (result, gone) = delete_stored id w up known in
          let answer =
            serve_http-deleting
            ∙ respond_ok (λ _. header 204) map_domain_error (Service.delete e id) w result in
          (
            ap (λ a. status_of a.0) answer ∙ sym (rw known refl),
            subst (λ a. Cascaded id (tables w) (tables a.1)) (sym answer) gone,
          )
      | inr unknown ↦
          let (result, gone) = delete_unknown id w up unknown in
          let answer =
            serve_http-deleting
            ∙ respond_err (λ _. header 204) map_domain_error (Service.delete e id) w result in
          (
            ap (λ a. status_of a.0) answer ∙ not_found-status ∙ sym (rw unknown refl),
            subst (λ a. Cascaded id (tables w) (tables a.1)) (sym answer) gone,
          )
    ]

    -- While the database answers and is consistent, a broadcaster with a key is deleted with 204;
    -- and then a publish request that shows this key is refused.
    pub delete_locks_out :
        (k : StreamKey) (now db_now : Time) (req : AuthRequest)
        → IsConsistent (tables w)
        → Memᴰ k (tables w).stream_keys
        → k.broadcaster_id ≡ id
        → req.action ≡ "publish"
        → shown_key req ≡ k.key_value
        → k.key_value ≢ ""
        → let answer = serve_http e parse_uuid i (deleting text) w in
          (status_of answer.0 ≡ 204)
          × (is_allowed (authenticate e now db_now req answer.1).0 ≡ false)
    delete_locks_out k now db_now req c stored owner publish shown filled =
        let (status, gone) = delete_answers in
        let known : any (λ b. b.id == id) (tables w).broadcasters ≡ true =
          subst (λ j. any (λ b. b.id == j) (tables w).broadcasters ≡ true) owner
            (All-Memᴰ _ (tables w).stream_keys c.keys.owned stored) in
        let w' = (serve_http e parse_uuid i (deleting text) w).1 in
        let usable =
          authenticate_allowed_iff e now db_now req w' publish (λ h. filled (sym shown ∙ h)) in
        (
          status ∙ (rw known refl),
          elim (Bool-cases (is_allowed (authenticate e now db_now req w').0)) [
            | inr refused ↦ refused
            | inl allowed ↦ absurd (
                delete_unusable id k now (tables w) (tables w') c stored owner gone
                  (subst (Usable now (tables w')) shown (usable.0 allowed)))
          ],
        )
