-- ===== src/Tests/Auth.antt =====
-- Authentication on the sample tables.
use rescuestream_api.Prelude.{some, ◌⊎◌, ◌↔◌, ◌≡◌, ◌≢◌, refl, true, false, arith, eq_iff, String}
use rescuestream_api.Errors.{◌>>=◌, handle, attempt}
use rescuestream_api.Env.Memory.{memory}
use rescuestream_api.Store.Invariant.{IsConsistent}
use rescuestream_api.Service.Auth.{
  authenticate, check, check_key, check_unused, accept_key, mark_expired, get_and_lock_stream_key,
  get_active_stream_by_key_id,
}
use rescuestream_api.Service.Auth.Outcome.{Done, Outcome}
use rescuestream_api.Service.Auth.Answers.{authenticate-Outcome}
use rescuestream_api.Service.Auth.Access.{is_allowed, Usable, authenticate_allowed_iff}
use rescuestream_api.Domain.{StreamKey, is_past}
use rescuestream_api.Prelude.{All-Memᴰ}
use rescuestream_api.Service.Auth.Again.{authenticate_again}
use rescuestream_api.Service.Auth.Total.{Total, authenticate-Total}
use rescuestream_api.Consistency.Reach.{auth, here, next, Reach-IsConsistent}
use rescuestream_api.Handler.Http.{post, status_of}
use rescuestream_api.Handler.Auth.{serve_http}
use rescuestream_api.Handler.Auth.Answers.{serve_http_allows}
use rescuestream_api.Tests.Data.{start, stored, publish, stored-IsConsistent}

program : Unit {0}
unfolding authenticate check check_key check_unused accept_key mark_expired get_and_lock_stream_key
    get_active_stream_by_key_id ◌>>=◌ handle attempt
program = tt

decisions :
    (is_allowed (authenticate memory 100 100 (publish "" "/sk_free") start).0 ≡ true)
    × (is_allowed (authenticate memory 501 501 (publish "" "/sk_free") start).0 ≡ false)
    × (is_allowed (authenticate memory 100 100 (publish "sk_busy" "x") start).0 ≡ false)
    × (is_allowed (authenticate memory 100 100 (publish "sk_old" "x") start).0 ≡ false)
    × (is_allowed (authenticate memory 100 100 (publish "sk_none" "x") start).0 ≡ false)
unfolding program
decisions = (refl, refl, refl, refl, refl)

ne_free : ◌≢◌ {A = String} "sk_free" ""
ne_free = ground (arith, eq_iff "sk_free" "")

-- A granted request.
authenticate-Outcome_example :
    Done
      (λ r w'. Outcome 100 101 "sk_free" stored r w'.stored)
      (authenticate memory 100 101 (publish "" "/sk_free") start)
authenticate-Outcome_example =
    authenticate-Outcome memory 100 101 (publish "" "/sk_free") start refl ne_free

authenticate_allowed_iff_example :
    let allowed = is_allowed (authenticate memory 100 101 (publish "" "/sk_free") start).0 ≡ true in
    (allowed → Usable 100 stored "sk_free")
    × (true ≡ true → IsConsistent stored → Usable 100 stored "sk_free" → allowed)
authenticate_allowed_iff_example =
    authenticate_allowed_iff memory 100 101 (publish "" "/sk_free") start refl ne_free

-- The first request is granted, and the second marks the key as expired.
Reach-IsConsistent_example :
    let after_one = (authenticate memory 100 101 (publish "" "/sk_free") start).1 in
    let after_two = (authenticate memory 501 502 (publish "" "/sk_free") after_one).1 in
    IsConsistent after_two.stored
Reach-IsConsistent_example = Reach-IsConsistent memory stored-IsConsistent (
    next (next here (auth 100 101 (publish "" "/sk_free") start)) (
      auth 501 502 (publish "" "/sk_free")
        (authenticate memory 100 101 (publish "" "/sk_free") start).1))

-- The same over HTTP.
serve_http_allows_example :
    let status =
      status_of (serve_http memory 100 101 post (some (publish "" "/sk_free")) start).0 in
    ((status ≡ 200) ⊎ (status ≡ 401)) × ((status ≡ 200) ↔ Usable 100 stored "sk_free")
serve_http_allows_example =
    serve_http_allows memory 100 101 (publish "" "/sk_free") start refl stored-IsConsistent refl
      ne_free refl

authenticate-Total_example :
    Total memory (authenticate memory 100 101 (publish "" "/sk_free")) start
authenticate-Total_example =
    authenticate-Total memory 100 101 (publish "" "/sk_free") start refl refl

let_in : is_allowed (authenticate memory 100 101 (publish "" "/sk_free") start).0 ≡ true
unfolding program
let_in = refl

-- Two grants of a free key.
authenticate_again_example :
    is_allowed
      (authenticate memory 200 201
        (publish "sk_free" "x")
        (authenticate memory 100 101 (publish "" "/sk_free") start).1).0
    ≡ true
authenticate_again_example =
    authenticate_again memory 100 101 200 201 (publish "" "/sk_free") (publish "sk_free" "x") start
      refl stored-IsConsistent refl ne_free refl refl
      (λ k m _.
        All-Memᴰ (λ (j : StreamKey). is_past 200 j.expires_at ≡ false) stored.stream_keys
          (refl, (refl, (refl, tt))) m)
      let_in
