-- ===== src/Tests/Create.antt =====
-- A key made on the sample tables, the responses that show keys, and a broadcaster's deletion.
use rescuestream_api.Prelude.{
  ◌≡◌, ◌≢◌, refl, arith, ℕ, true, false, none, some, List, [], ◌∷◌, any, str_eq, map, length,
}
use rescuestream_api.Domain.{Time, StreamKey, is_past}
use rescuestream_api.Errors.{ok, handle, ◌>>=◌}
use rescuestream_api.Store.{delete_broadcaster}
use rescuestream_api.Database.BroadcasterRepo
use rescuestream_api.Service.Broadcasters
use rescuestream_api.Service.Broadcasters.Cascade.{Cascaded, delete-Cascaded}
use rescuestream_api.Env.Memory.{memory}
use rescuestream_api.Service.Auth.{AuthRequest, shown_key, authenticate}
use rescuestream_api.Service.Auth.Access.{is_allowed}
use rescuestream_api.Service.StreamKeys.{CreateRequest, create, encode_to_string}
use rescuestream_api.Service.StreamKeys.{sextets, spell}
use rescuestream_api.Service.StreamKeys.Created.{value_of, create_then_authenticate}
use rescuestream_api.Handler.Http.{get, delete, post, status_of, json}
use rescuestream_api.Handler.StreamKeys.{KeyInputs, serve_http, keys}
use rescuestream_api.Handler.StreamKeys.Listing.{list_stream_keys-Latest}
use rescuestream_api.Env.Sorted.{Latest}
use rescuestream_api.Service.StreamKeys.{clear_key_value}
use rescuestream_api.Handler.StreamKeys.Creation.{serve_http-unowned}
use rescuestream_api.Handler.StreamKeys.Hidden.{Hidden, serve_http-Hidden}
use rescuestream_api.Tests.Data.{start, stored, stored-IsConsistent}

abbrev eight : List ℕ → List ℕ
eight rest = 7 ∷ 77 ∷ 177 ∷ 255 ∷ 0 ∷ 1 ∷ 2 ∷ 3 ∷ rest

abbrev bytes : List ℕ
bytes = eight (eight (eight (eight [])))

abbrev for_ranger : CreateRequest
for_ranger = record { broadcaster_id = 1; expires_at = some 900000 }

new_value : any (λ (k : StreamKey). str_eq k.key_value (value_of bytes)) stored.stream_keys ≡ false
unfolding encode_to_string sextets spell
new_value = refl

forty : ◌≢◌ {A = ℕ} 40 0
forty = omega arith

create_then_authenticate_example :
    let (r, w') = create memory 40 41 100 (ok bytes) for_ranger start in
    (k : StreamKey) × (r ≡ ok k)
    × (k.key_value ≡ value_of bytes)
    × ((later db_later : Time) (login : AuthRequest)
        → login.action ≡ "publish"
        → shown_key login ≡ k.key_value
        → is_past later (some 900000) ≡ false
        → is_allowed (authenticate memory later db_later login w').0 ≡ true)
create_then_authenticate_example =
    create_then_authenticate memory 40 41 100 bytes for_ranger start refl stored-IsConsistent forty
      refl new_value refl refl

abbrev inputs : KeyInputs
inputs = record { fresh = 40; spare = 41; now = 100; db_now = 101; random = ok bytes }

-- Every text is taken for the ID of the busy key, and no text for a time.
serve_http-Hidden_example :
    Hidden (serve_http memory (λ s. some 12) (λ s. none) inputs get "12" none start).0
    × Hidden (serve_http memory (λ s. some 12) (λ s. none) inputs delete "12" none start).0
serve_http-Hidden_example =
    serve_http-Hidden memory (λ s. some 12) (λ s. none) inputs "12" none start

deleted : (Broadcasters.delete memory 1 start).0 ≡ ok tt
unfolding Broadcasters.delete BroadcasterRepo.delete delete_broadcaster ◌>>=◌ handle
deleted = refl

delete-Cascaded_example : Cascaded 1 stored (Broadcasters.delete memory 1 start).1.stored
delete-Cascaded_example = delete-Cascaded memory 1 start deleted

-- Every text is taken for the ID 9, which no broadcaster has.
serve_http-unowned_example :
    let answer =
      serve_http memory
        (λ s. some 9)
        (λ s. none)
        inputs
        post
        ""
        (some (record { broadcaster_id = "nobody"; expires_at = none }))
        start in
    (status_of answer.0 ≡ 500) × (memory.tables answer.1 ≡ stored)
serve_http-unowned_example =
    serve_http-unowned memory (λ s. some 9) (λ s. none) inputs
      (record { broadcaster_id = "nobody"; expires_at = none }) 9 none bytes start refl refl refl
      refl refl refl

-- The three sample keys.
list_stream_keys-Latest_example :
    let answer = serve_http memory (λ s. none) (λ s. none) inputs get "" none start in
    (xs : List StreamKey) × (answer.0
      ≡ json 200 (keys (map clear_key_value xs) (length (map clear_key_value xs))))
    × Latest (λ k. k.created_at) stored.stream_keys xs
    × (memory.tables answer.1 ≡ stored)
list_stream_keys-Latest_example =
    list_stream_keys-Latest memory (λ s. none) (λ s. none) inputs none start refl
