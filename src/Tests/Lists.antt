-- ===== src/Tests/Lists.antt =====
-- Lists and key values on samples.
use rescuestream_api.Prelude.{◌≡◌, refl, ℕ, String, none, List, [], ◌∷◌, length, arith}
use rescuestream_api.Domain.{StreamWithUrls}
use rescuestream_api.Errors.{ok}
use rescuestream_api.Env.Memory.{memory}
use rescuestream_api.Store.{characters}
use rescuestream_api.Service.StreamKeys.{generate_stream_key}
use rescuestream_api.Service.StreamKeys.Decode.{generate_stream_key-injective}
use rescuestream_api.Service.StreamKeys.KeyLength.{generate_stream_key-characters}
use rescuestream_api.Service.Streams.Listed.{Listed}
use rescuestream_api.Handler.Http.{get, json}
use rescuestream_api.Handler.Streams.{streams, serve_http}
use rescuestream_api.Handler.Streams.Answers.{list_streams-Listed}
use rescuestream_api.Tests.Data.{start, stored}

-- The one stream that is live.
list_streams-Listed_example :
    (ss : List StreamWithUrls) × ((serve_http memory "http://live" (λ s. none) get "" start).0
      ≡ json 200 (streams ss (length ss)))
    × Listed "http://live" stored ss
    × ((serve_http memory "http://live" (λ s. none) get "" start).1.stored ≡ stored)
list_streams-Listed_example = list_streams-Listed memory "http://live" (λ s. none) start refl refl

abbrev bytes : List ℕ
bytes = 0 ∷ 1 ∷ 128 ∷ 255 ∷ []

abbrev many : List ℕ
many =
    1 ∷ 2 ∷ 3 ∷ 4 ∷ 5 ∷ 6 ∷ 7 ∷ 8 ∷ 9 ∷ 10 ∷ 11 ∷ 12 ∷ 13 ∷ 14 ∷ 15 ∷ 16 ∷ 17 ∷ 18 ∷ 19 ∷ 20 ∷ 21
    ∷ 22 ∷ 23 ∷ 24 ∷ 25 ∷ 26 ∷ 27 ∷ 28 ∷ 29 ∷ 30 ∷ 31 ∷ 32 ∷ []

generate_stream_key-injective_example : bytes ≡ bytes
generate_stream_key-injective_example =
    generate_stream_key-injective bytes bytes
      (omega arith, (omega arith, (omega arith, (omega arith, tt))))
      (omega arith, (omega arith, (omega arith, (omega arith, tt)))) refl

generate_stream_key-characters_example :
    (value : String) × (generate_stream_key (ok many) ≡ ok value) × (characters value ≡ 46)
generate_stream_key-characters_example = generate_stream_key-characters many refl
