-- ===== src/Handler/StreamKeys/Creation.antt =====
-- The responses of `createStreamKey` (internal/handler/streamkey.go) to a broadcaster that is not
-- stored.
use rescuestream_api.Prelude.{
  ◌≡◌, refl, ap, ◌∙◌, ℕ, String, Bool, true, false, not, ◌&&◌, Option, some, List, any, ◌==◌, arith,
  str_eq, Bool-cases, inl, inr,
}
use rescuestream_api.Domain.{nil_uuid, Uuid, Time, StreamKey}
use rescuestream_api.Errors.{Error, ok, err, wrap, external, lift}
use rescuestream_api.Store.{Tables, insert_key, accept, fits}
use rescuestream_api.Env.{Env}
use rescuestream_api.Env.Healthy.{
  Gives, run_err, handle_ok, handle_err, bind_Gives, bind_Gives_err, pure-Gives, moved,
}
use rescuestream_api.Database.StreamKeyRepo
use rescuestream_api.Service.StreamKeys.{CreateRequest, create, generate_stream_key, new_key}
use rescuestream_api.Service.StreamKeys.Created.{value_of}
use rescuestream_api.Handler.Http.{post, json, status_of, map_domain_error}
use rescuestream_api.Handler.Http.Respond.{respond_err}
use rescuestream_api.Handler.StreamKeys.{
  key, KeyInputs, create_parsed, create_stream_key, CreateStreamKeyRequest, parse_expiry,
  serve_http,
}

refused :
    (a b d : Bool) (t : Tables)
    → accept (a && b && false && d) t ≡ err (external "constraint violation")
refused a b d = ground arith

insert_key-unowned :
    (k : StreamKey) (t : Tables)
    → any (λ b. b.id == k.broadcaster_id) t.broadcasters ≡ false
    → insert_key k t ≡ err (external "constraint violation")
unfolding insert_key
insert_key-unowned k t unowned = rw unowned (
    refused (not (any (λ j. j.id == k.id) t.stream_keys))
      (not (any (λ j. str_eq j.key_value k.key_value) t.stream_keys)) (fits 64 k.key_value) _)

with_id-broadcaster_id :
    (spare : Uuid) (k : StreamKey)
    → (StreamKeyRepo.with_id spare k).broadcaster_id ≡ k.broadcaster_id
with_id-broadcaster_id spare k = elim (Bool-cases (k.id == nil_uuid)) [
  | inl unset ↦ rw unset refl
  | inr set ↦ rw set refl
]

abbrev violation : Error
violation = wrap "failed to create stream key" (external "constraint violation")

violation-status : (map_domain_error violation).status ≡ 500
unfolding map_domain_error
violation-status = refl

module _ (e : Env) where
  open e use {World, tables, healthy}

  create-unowned :
      (fresh spare : Uuid) (now : Time) (bytes : List ℕ) (req : CreateRequest) (w : World)
      → healthy w ≡ true
      → any (λ b. b.id == req.broadcaster_id) (tables w).broadcasters ≡ false
      → Gives e (create e fresh spare now (ok bytes) req) w (err violation) (tables w)
  unfolding create StreamKeyRepo.create generate_stream_key
  create-unowned fresh spare now bytes req w up unowned =
      let k = new_key fresh now (value_of bytes) req in
      let made =
        handle_ok e ok (wrap "failed to generate stream key") (lift (ok (value_of bytes))) w
          (pure-Gives e w up (value_of bytes)) in
      let owner = with_id-broadcaster_id spare k in
      let failed = handle_err e ok (wrap "failed to create stream key") _ _ (
        run_err e (insert_key _) _ made.up (
          ap (insert_key _) made.left
          ∙ insert_key-unowned (StreamKeyRepo.new_row (StreamKeyRepo.with_id spare k)) (tables w)
              (ap (λ i. any (λ b. b.id == i) (tables w).broadcasters) owner ∙ unowned))) in
      bind_Gives e _ _ w made (moved e (bind_Gives_err e _ _ _ failed) made.left)

  module _ (parse_uuid : String → Option Uuid) (parse_time : String → Option Time) where
    -- While the database answers and the random generator gives bytes, a well-formed request to create a key for a
    -- broadcaster that is not stored is answered with 500, and the tables stay.
    pub serve_http-unowned :
        (i : KeyInputs) (req : CreateStreamKeyRequest) (id : Uuid) (expiry : Option Time)
        (bytes : List ℕ) (w : World)
        → healthy w ≡ true
        → i.random ≡ ok bytes
        → str_eq req.broadcaster_id "" ≡ false
        → parse_uuid req.broadcaster_id ≡ some id
        → parse_expiry parse_time req.expires_at ≡ some expiry
        → any (λ b. b.id == id) (tables w).broadcasters ≡ false
        → let answer = serve_http e parse_uuid parse_time i post "" (some req) w in
          (status_of answer.0 ≡ 500) × (tables answer.1 ≡ tables w)
    unfolding serve_http create_stream_key create_parsed
    serve_http-unowned i req id expiry bytes w up random given named timed unowned =
        let wanted : CreateRequest = record { broadcaster_id = id; expires_at = expiry } in
        let m = create e i.fresh i.spare i.now (ok bytes) wanted in
        let failed = create-unowned i.fresh i.spare i.now bytes wanted w up unowned in
        let answer = respond_err (λ k. json 201 (key k)) map_domain_error m w failed.result in
        rw (given, named, timed, random)
          (
            ap (λ a. status_of a.0) answer ∙ violation-status,
            ap (λ a. tables a.1) answer ∙ failed.left,
          )
