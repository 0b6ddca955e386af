-- ===== src/Tests/Broadcasters.antt =====
-- A broadcaster that is stored, and one that is edited, on the sample tables.
use rescuestream_api.Prelude.{◌≡◌, ◌≢◌, refl, arith, ℕ, some, false}
use rescuestream_api.Domain.{Broadcaster, nil_map, object}
use rescuestream_api.Env.Memory.{memory}
use rescuestream_api.Service.Broadcasters.{CreateBroadcasterRequest, UpdateBroadcasterRequest}
use rescuestream_api.Handler.Http.{json, status_of}
use rescuestream_api.Handler.Broadcasters.{broadcaster, BroadcasterInputs, serve_http}
use rescuestream_api.Handler.Broadcasters.ReadBack.{
  posting, getting, patching, post_then_get, patch_then_get,
}
use rescuestream_api.Handler.Broadcasters.Deletion.{deleting, delete_answers, delete_locks_out}
use rescuestream_api.Service.Broadcasters.Cascade.{Cascaded}
use rescuestream_api.Service.Auth.{authenticate}
use rescuestream_api.Service.Auth.Access.{is_allowed}
use mathlib.Core.List.{Memᴰ}
use rescuestream_api.Tests.Data.{start, ranger, stored, stored-IsConsistent, free_key, publish}

abbrev inputs : BroadcasterInputs
inputs = record { fresh = 40; spare = 41; created = 1700001; updated = 1700002; db_now = 102 }

abbrev lifeguard : CreateBroadcasterRequest
lifeguard = record { display_name = "lifeguard"; metadata = nil_map }

abbrev renamed : UpdateBroadcasterRequest
renamed = record { display_name = some "ranger two"; metadata = nil_map }

forty : ◌≢◌ {A = ℕ} 40 0
forty = omega arith

-- Every text is taken for the new ID.
post_then_get_example :
    let b : Broadcaster = record {
      id = 40;
      display_name = "lifeguard";
      metadata = object "{}";
      created_at = 1700001;
      updated_at = 1700002;
    } in
    let stored : Broadcaster = record b { created_at = 1700000; updated_at = 1700000 } in
    let made = serve_http memory (λ s. some 40) inputs (posting lifeguard) start in
    (made.0 ≡ json 201 (broadcaster b))
    × ((serve_http memory (λ s. some 40) inputs (getting "40") made.1).0
        ≡ json 200 (broadcaster stored))
post_then_get_example =
    post_then_get memory (λ s. some 40) inputs inputs lifeguard "40" start (object "{}") refl refl
      refl refl refl forty refl refl refl

-- Every text is taken for the ID of the stored broadcaster.
patch_then_get_example :
    let b : Broadcaster = record {
      id = 1;
      display_name = "ranger two";
      metadata = object "{}";
      created_at = 10;
      updated_at = 102;
    } in
    let done = serve_http memory (λ s. some 1) inputs (patching "1" renamed) start in
    (done.0 ≡ json 200 (broadcaster b))
    × ((serve_http memory (λ s. some 1) inputs (getting "1") done.1).0 ≡ json 200 (broadcaster b))
patch_then_get_example =
    patch_then_get memory (λ s. some 1) inputs inputs renamed "1" 1 start ranger (object "{}")
      "ranger two" (object "{}") refl refl refl refl refl refl refl refl refl

delete_answers_example :
    let answer = serve_http memory (λ s. some 1) inputs (deleting "1") start in
    (status_of answer.0 ≡ 204) × Cascaded 1 stored answer.1.stored
delete_answers_example = delete_answers memory (λ s. some 1) inputs "1" 1 start refl refl refl

filled : free_key.key_value ≢ ""
filled h = cc

delete_locks_out_example :
    let answer = serve_http memory (λ s. some 1) inputs (deleting "1") start in
    (status_of answer.0 ≡ 204)
    × (is_allowed (authenticate memory 110 111 (publish free_key.key_value "x") answer.1).0 ≡ false)
delete_locks_out_example =
    delete_locks_out memory (λ s. some 1) inputs "1" 1 start refl refl refl free_key 110 111
      (publish free_key.key_value "x") stored-IsConsistent (Memᴰ.head refl) refl refl refl filled
