-- ===== src/Tests/History.antt =====
-- Stream keys of the sample tables over a run of requests.
use rescuestream_api.Prelude.{◌≡◌, ◌≢◌, refl, String, false, some, head?, arith, eq_iff}
use rescuestream_api.Domain.{StreamKey}
use rescuestream_api.Env.Memory.{Memory, memory}
use rescuestream_api.Database.StreamKeyRepo.{select_by_id}
use rescuestream_api.Service.Auth.{authenticate}
use rescuestream_api.Service.Auth.Access.{is_allowed}
use rescuestream_api.Consistency.Kept.{Moves}
use rescuestream_api.Consistency.Reach.{Reach, auth, here, next}
use rescuestream_api.Consistency.History.{Reach-Moves, Reach-retired}
use rescuestream_api.Tests.Data.{start, free_key, old_key, publish, stored-IsConsistent}

-- A grant, and a request after the key's expiry.
abbrev after_one : Memory
after_one = (authenticate memory 100 101 (publish "" "/sk_free") start).1

abbrev after_two : Memory
after_two = (authenticate memory 501 502 (publish "" "/sk_free") after_one).1

abbrev two_requests : Reach memory start after_two
two_requests =
    next (next here (auth 100 101 (publish "" "/sk_free") start))
      (auth 501 502 (publish "" "/sk_free") after_one)

Reach-Moves_example :
    (k' : StreamKey) × (head? (select_by_id 11 after_two.stored) ≡ some k') × Moves free_key k'
Reach-Moves_example =
    Reach-Moves memory free_key stored-IsConsistent refl two_requests ((tt, tt), tt)

ne_old : ◌≢◌ {A = String} "sk_old" ""
ne_old = ground (arith, eq_iff "sk_old" "")

Reach-retired_example :
    is_allowed (authenticate memory 600 601 (publish "sk_old" "x") after_two).0 ≡ false
Reach-retired_example =
    Reach-retired memory old_key stored-IsConsistent refl (λ h. cc) two_requests ((tt, tt), tt) 600
      601 (publish "sk_old" "x") refl refl ne_old
