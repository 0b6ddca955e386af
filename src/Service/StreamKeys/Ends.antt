-- ===== src/Service/StreamKeys/Ends.antt =====
-- `Revoke` of internal/service/streamkey.go while the database answers: the stream is ended too.
use rescuestream_api.Prelude.{
  ◌≡◌, refl, sym, ap, ◌∙◌, subst, Bool, true, false, some, Option, List, ◌==◌, arith, any, length,
  select, count, head?,
}
use rescuestream_api.Domain.{Uuid, Time, StreamKeyStatus, StreamKey, key_is_active}
use rescuestream_api.Errors.{ok}
use rescuestream_api.Store.{Tables, update_keys}
use rescuestream_api.Store.Invariant.{IsConsistent}
use rescuestream_api.Env.{Env}
use rescuestream_api.Env.Healthy.{
  Gives, run_ok, handle_ok, query_some, bind_Gives, pure_after, then_Gives, else_Gives,
}
use rescuestream_api.Database.StreamKeyRepo
use rescuestream_api.Database.StreamKeyRepo.{select_by_id, set_status}
use rescuestream_api.Database.StreamRepo.{is_active_of_key}
use rescuestream_api.Service.StreamKeys.{revoke}
use rescuestream_api.Service.StreamKeys.Revoked.{Settled, revoke-Settled}
use rescuestream_api.Service.StreamKeys.Terminate.{Decodes, terminate_active-Ends}

count_of_head :
    {A : Type 0} (p : A → Bool) (xs : List A) {x : A}
    → head? (select p xs) ≡ some x
    → (count p xs == 0) ≡ false
count_of_head {A} p xs {x} h = by_selection (select p xs) h
  where
    by_selection : (ys : List A) → head? ys ≡ some x → (length ys == 0) ≡ false
    by_selection ys h' = ground arith

module _ (e : Env) where
  open e use {World, tables, healthy}

  update_status-Gives :
      (id : Uuid) (status : StreamKeyStatus) (at : Option Time) (w : World) {key : StreamKey}
      → healthy w ≡ true
      → head? (select_by_id id (tables w)) ≡ some key
      → (t : Tables) × Gives e (StreamKeyRepo.update_status e id status at) w (ok tt) t
        × (t.streams ≡ (tables w).streams)
  unfolding StreamKeyRepo.update_status
  update_status-Gives id status at w up found =
      let c =
        handle_ok e ok _ _ w
          (run_ok e (update_keys (λ k. k.id == id) (set_status status at)) w up refl) in
      (
        _,
        bind_Gives e _ _ w c (
            else_Gives e _ _ _ (count_of_head (λ k. k.id == id) (tables w).stream_keys found)
              (pure_after e tt c)),
        refl,
      )

  -- While the database answers and is consistent, the revocation of a stored, active key succeeds,
  -- if the metadata of its active stream can be decoded; then the key has no active stream, and
  -- every row with its ID is revoked.
  pub revoke_ends :
      (now db_now : Time) (id : Uuid) (w : World) (key : StreamKey)
      → healthy w ≡ true
      → IsConsistent (tables w)
      → Decodes e id (tables w)
      → head? (select_by_id id (tables w)) ≡ some key
      → key.status ≡ StreamKeyStatus.active
      → let (r, w') = revoke e now db_now id w in
        (r ≡ ok tt)
        × (any (is_active_of_key id) (tables w').streams ≡ false)
        × Settled now id (tables w')
  unfolding revoke StreamKeyRepo.get_by_id StreamKeyRepo.update_status
  revoke_ends now db_now id w key up c decodes found active =
      let looked =
        handle_ok e ok StreamKeyRepo.scan_error _ w (query_some e (select_by_id id) w up found) in
      let same = looked.left in
      let (t₁, ended, (none_active, same_keys)) =
        terminate_active-Ends e db_now id _ looked.up (subst IsConsistent (sym same) c)
          (subst (Decodes e id) (sym same) decodes) in
      let found' =
        ap (λ ks. head? (select (λ k. k.id == id) ks))
          (ap (λ (t : Tables). t.stream_keys) ended.left
            ∙ same_keys
            ∙ ap (λ (t : Tables). t.stream_keys) same)
        ∙ found in
      let (t₂, written, same_streams) =
        update_status-Gives id StreamKeyStatus.revoked (some now) _ ended.up found' in
      let done =
        bind_Gives e _ _ w looked
          (then_Gives e _ _ _ (ap key_is_active active) (bind_Gives e _ _ _ ended written)) in
      (
        done.result,
        ap (λ ss. any (is_active_of_key id) ss)
              (ap (λ (t : Tables). t.streams) done.left
                ∙ same_streams
                ∙ ap (λ (t : Tables). t.streams) ended.left)
            ∙ none_active,
        revoke-Settled e now db_now id w tt done.result,
      )
