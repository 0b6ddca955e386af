-- ===== src/Tests/Keys.antt =====
-- Revocation and kicks on the sample tables.
use mathlib.Core.List.{Memᴰ}
use rescuestream_api.Prelude.{◌≡◌, ◌≢◌, refl, arith, eq_iff, String, true, false, any, [], ◌∷◌}
use rescuestream_api.Prelude.{ℕ, Option, none, some, str_eq, if◌then◌else◌}
use rescuestream_api.Domain.{StreamKey}
use rescuestream_api.Errors.{ok, ◌>>=◌, handle, attempt}
use rescuestream_api.Env.Memory.{memory}
use rescuestream_api.Database.StreamKeyRepo
use rescuestream_api.Database.StreamRepo
use rescuestream_api.Database.StreamRepo.{is_active_of_key}
use rescuestream_api.Service.Auth.{authenticate}
use rescuestream_api.Service.Auth.Access.{is_allowed}
use rescuestream_api.Service.MediaMtx.{kick_path, kick_listed, kick_all, kick_one}
use rescuestream_api.Service.MediaMtx.Kicks.{kick_each, targets, items_of, kick_path-kicks}
use rescuestream_api.Service.StreamKeys.{revoke, terminate, terminate_active}
use rescuestream_api.Service.StreamKeys.Revoked.{Settled, revoke_refuses}
use rescuestream_api.Service.StreamKeys.Ends.{revoke_ends}
use rescuestream_api.Handler.StreamKeys.{KeyInputs, revoke_stream_key}
use rescuestream_api.Handler.StreamKeys.Revocation.{Answered, revoke_stream_key-Answered}
use rescuestream_api.Tests.Data.{start, stored, busy_key, publish, stored-IsConsistent}

program : Unit {0}
unfolding revoke terminate terminate_active StreamKeyRepo.get_by_id StreamKeyRepo.update_status
    StreamRepo.get_active_by_stream_key_id StreamRepo.end_stream kick_path kick_listed kick_all
    kick_one ◌>>=◌ handle attempt
program = tt

-- The two connections with the path and an ID are kicked.
kicked : (revoke memory 100 101 12 start).1.kicked ≡ "s1" ∷ "c1" ∷ []
unfolding program
kicked = refl

revoked : (revoke memory 100 101 12 start).0 ≡ ok tt
unfolding program
revoked = refl

ne_busy : ◌≢◌ {A = String} "sk_busy" ""
ne_busy = ground (arith, eq_iff "sk_busy" "")

revoke_refuses_example :
    let w' = (revoke memory 100 101 12 start).1 in
    Settled 100 12 w'.stored
    × (is_allowed (authenticate memory 200 201 (publish "sk_busy" "x") w').0 ≡ true
        → (key : StreamKey) × Memᴰ key w'.stored.stream_keys
          × (key.key_value ≡ "sk_busy")
          × (key.id ≢ 12))
revoke_refuses_example =
    revoke_refuses memory 100 101 12 start 200 201 (publish "sk_busy" "x") revoked refl ne_busy

revoke_ends_example :
    let (r, w') = revoke memory 100 101 12 start in
    (r ≡ ok tt) × (any (is_active_of_key 12) w'.stored.streams ≡ false) × Settled 100 12 w'.stored
revoke_ends_example =
    revoke_ends memory 100 101 12 start busy_key refl stored-IsConsistent ((λ _. (_, refl)), tt)
      refl refl

kick_path-kicks_example :
    let (listed, w₁) = memory.rtmp_list start in
    let w₂ = kick_each memory.rtmp_kick (targets "sk_busy" (items_of listed)) w₁ in
    let (sessions, w₃) = memory.rtsp_list w₂ in
    kick_path memory "sk_busy" start
    ≡ (ok tt, kick_each memory.rtsp_kick (targets "sk_busy" (items_of sessions)) w₃)
kick_path-kicks_example = kick_path-kicks memory "sk_busy" start

abbrev inputs : KeyInputs
inputs = record { fresh = 40; spare = 41; now = 100; db_now = 101; random = ok [] }

-- The text "12" is the ID of the busy key, and "13" that of the revoked one.
abbrev parse : String → Option ℕ
parse s = if str_eq s "12" then some 12 else if str_eq s "13" then some 13 else none

revoke_stream_key-Answered_example :
    Answered memory
      (λ s. none)
      stored
      400
      (revoke_stream_key memory parse (λ s. none) inputs "13" start)
revoke_stream_key-Answered_example =
    revoke_stream_key-Answered memory (λ s. none) parse inputs "13" start refl stored-IsConsistent
      (λ id k h found active. ((λ _. (_, refl)), tt))
