-- ===== src/Handler/StreamKeys/Revocation.antt =====
-- The responses of `revokeStreamKey` (internal/handler/streamkey.go) while the database answers.
use rescuestream_api.Prelude.{
  ◌≡◌, refl, ap, ◌∙◌, sym, ℕ, String, true, false, Option, none, some, ◌⊎◌, inl, inr, head?,
  Bool-cases, Option-cases, if◌then◌else◌,
}
use rescuestream_api.Domain.{Uuid, Time, StreamKey, StreamKeyStatus, key_is_active}
use rescuestream_api.Errors.{domain, not_found, invalid_status, Result, ok, err}
use rescuestream_api.Store.{Tables}
use rescuestream_api.Store.Invariant.{IsConsistent}
use rescuestream_api.Env.{Env}
use rescuestream_api.Env.Healthy.{
  Gives, handle_ok, handle_err, query_some, query_none, bind_Gives, bind_Gives_err, fail-Gives,
  else_Gives, moved,
}
use rescuestream_api.Database.StreamKeyRepo
use rescuestream_api.Database.StreamKeyRepo.{select_by_id}
use rescuestream_api.Service.StreamKeys.{revoke}
use rescuestream_api.Service.StreamKeys.Terminate.{Decodes}
use rescuestream_api.Service.StreamKeys.Ends.{revoke_ends}
use rescuestream_api.Handler.Http.{
  Response, header, problem, status_of, map_domain_error, respond, refuse, err_invalid_request,
}
use rescuestream_api.Handler.StreamKeys.{KeyPayload, KeyInputs, revoke_stream_key}

-- The status that belongs to the key found.
abbrev pub status_for : Option StreamKey → ℕ
status_for none = 404
status_for (some k) = if key_is_active k.status then 204 else 400

-- 400 for a text that is no ID, 404 for an ID that no key has, 400 for a key that is not active.
abbrev pub revocation_status : Tables → Option Uuid → ℕ
revocation_status t none = 400
revocation_status t (some id) = status_for (head? (select_by_id id t))

active_lem : (s : StreamKeyStatus) → key_is_active s ≡ true → s ≡ StreamKeyStatus.active
active_lem StreamKeyStatus.active h = refl
active_lem StreamKeyStatus.revoked h = cc
active_lem StreamKeyStatus.expired h = cc

module _ (e : Env) (now db_now : Time) (id : Uuid) (w : e.World) (up : e.healthy w ≡ true) where
  open e use {World, tables, healthy}

  revoke-unknown :
      head? (select_by_id id (tables w)) ≡ none
      → Gives e (revoke e now db_now id) w (err (domain not_found)) (tables w)
  unfolding revoke StreamKeyRepo.get_by_id
  revoke-unknown h =
      bind_Gives_err e _ _ w
        (handle_err e ok StreamKeyRepo.scan_error _ w (query_none e (select_by_id id) w up h))

  revoke-inactive :
      (k : StreamKey)
      → head? (select_by_id id (tables w)) ≡ some k
      → key_is_active k.status ≡ false
      → Gives e (revoke e now db_now id) w (err (domain invalid_status)) (tables w)
  unfolding revoke StreamKeyRepo.get_by_id
  revoke-inactive k h ended =
      let looked =
        handle_ok e ok StreamKeyRepo.scan_error _ w (query_some e (select_by_id id) w up h) in
      bind_Gives e _ _ w looked (
        else_Gives e _ _ _ ended
          (moved e (fail-Gives e _ looked.up (domain invalid_status)) looked.left))

module _ (e : Env) (parse_time : String → Option Time) where
  open e use {World, tables, healthy}

  -- What is claimed of a response and the tables left.
  abbrev pub Answered : Tables → ℕ → Response KeyPayload × World → Type 0
  Answered t status r = (status_of r.0 ≡ status) × ((status ≡ 204) ⊎ (tables r.1 ≡ t))

  response_to : Result (Unit {0}) → Response KeyPayload
  response_to r = elim r as (λ _. Response KeyPayload) [
    | ok _ ↦ header 204
    | err x ↦ problem (map_domain_error x)
  ]

  revoke-Answered :
      (now db_now : Time) (id : Uuid) (w : World)
      → healthy w ≡ true
      → IsConsistent (tables w)
      → ((k : StreamKey)
          → head? (select_by_id id (tables w)) ≡ some k
          → k.status ≡ StreamKeyStatus.active
          → Decodes e id (tables w))
      → Answered
          (tables w)
          (status_for (head? (select_by_id id (tables w))))
          (respond (λ _. header 204) map_domain_error (revoke e now db_now id) w)
  unfolding response_to map_domain_error
  revoke-Answered now db_now id w up c decodes =
      elim (Option-cases (head? (select_by_id id (tables w)))) [
        | inl unknown ↦
            let g = revoke-unknown e now db_now id w up unknown in
            (ap (λ r. status_of (response_to r)) g.result ∙ ap status_for (sym unknown), inr g.left)
        | inr (k, found) ↦ elim (Bool-cases (key_is_active k.status)) [
          | inl active ↦
              let done =
                revoke_ends e now db_now id w k up c (decodes k found (active_lem k.status active))
                  found (active_lem k.status active) in
              let is_204 = ap status_for found ∙ (rw active refl) in
              (ap (λ r. status_of (response_to r)) done.0 ∙ sym is_204, inl is_204)
          | inr ended ↦
              let g = revoke-inactive e now db_now id w up k found ended in
              let is_400 : status_for (some k) ≡ 400 = rw ended refl in
              (
                ap (λ r. status_of (response_to r)) g.result ∙ sym (ap status_for found ∙ is_400),
                inr g.left,
              )
        ]
      ]

  -- While the database answers and is consistent, the response to a revocation has the status 400
  -- if the text is no ID, 404 if no key has the ID, 400 if the key is not active, and 204 if it is
  -- active and the metadata of its active stream can be decoded; only with 204 do the tables change.
  pub revoke_stream_key-Answered :
      (parse_uuid : String → Option Uuid) (i : KeyInputs) (text : String) (w : World)
      → healthy w ≡ true
      → IsConsistent (tables w)
      → ((id : Uuid) (k : StreamKey)
          → parse_uuid text ≡ some id
          → head? (select_by_id id (tables w)) ≡ some k
          → k.status ≡ StreamKeyStatus.active
          → Decodes e id (tables w))
      → Answered
          (tables w)
          (revocation_status (tables w) (parse_uuid text))
          (revoke_stream_key e parse_uuid parse_time i text w)
  unfolding revoke_stream_key
  revoke_stream_key-Answered parse_uuid i text w up c decodes = by_parse (parse_uuid text) refl
    where
      by_parse :
          (o : Option Uuid)
          → parse_uuid text ≡ o
          → Answered (tables w) (revocation_status (tables w) o) (
              (elim o as (λ _. World → Response KeyPayload × World) [
                | none ↦ refuse (err_invalid_request "invalid stream key ID")
                | some u ↦ respond (λ _. header 204) map_domain_error (revoke e i.now i.db_now u)
              ])
                w)
      by_parse none h = (refl, inr refl)
      by_parse (some u) h = revoke-Answered i.now i.db_now u w up c (λ k. decodes u k h)
