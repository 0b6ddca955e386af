-- ===== src/Consistency/Revoke.antt =====
-- `StreamKeyService.Revoke` of internal/service/streamkey.go and what it keeps of the tables.
use rescuestream_api.Prelude.{
  ◌≡◌, refl, sym, ap, ◌∙◌, subst, ℕ, Bool, true, some, List, All-imp, select, ◌==◌, Bool-cases, inl,
  inr, if◌then◌else◌, ==_iff, head?, head_select-Mem, arith,
}
use rescuestream_api.Domain.{Uuid, Time, StreamKeyStatus, StreamKey, Stream, key_is_active}
use rescuestream_api.Errors.{
  Result, ok, err, handle, fail, domain, error_eq, not_found, invalid_status, ◌>>=◌,
}
use rescuestream_api.Store.{Tables, StreamRow, update_keys, update_streams}
use rescuestream_api.Store.Invariant.{IsConsistent, Preserves}
use rescuestream_api.Env.{Env}
use rescuestream_api.Env.Reads.{Looked, handle-Looked}
use rescuestream_api.Database.StreamKeyRepo
use rescuestream_api.Database.StreamRepo
use rescuestream_api.Service.MediaMtx.Kicks.{kick_path_apart}
use rescuestream_api.Service.StreamKeys
use rescuestream_api.Consistency.Base.{query_row-Preserves, ok_pair}
use rescuestream_api.Consistency.Keys.{only_with_id}
use rescuestream_api.Consistency.Rules.{Rules, AllActive, revoke_at}
use rescuestream_api.Consistency.Actions.{
  Keeps, run-Keeps, run-Keeps_at, if-Keeps, >>=-Keeps, >>=-Keeps_at, handle-Keeps, attempt-Keeps,
}

module _ (e : Env) (I : Tables → Type 0) where
  open e use {World, tables}

  pub affected-Keeps : (n : ℕ) → Keeps e I (StreamRepo.affected n)
  affected-Keeps n = if-Keeps e I _ _ _ (λ w c. c) (λ w c. c)

  -- Ending the stream of a key needs the rule on UPDATEs of streams alone.
  module _
      (ended : (p : StreamRow → Bool) (now : Time)
        → Preserves I (update_streams p (StreamRepo.end_row now))) where
    end_stream-Keeps : (now : Time) (id : Uuid) → Keeps e I (StreamRepo.end_stream e now id)
    unfolding StreamRepo.end_stream
    end_stream-Keeps now id =
        >>=-Keeps e I _ _ (handle-Keeps e I _ _ _ (run-Keeps e I _ (ended _ now))) affected-Keeps

    terminate-Keeps : (now : Time) (stream : Stream) → Keeps e I (StreamKeys.terminate e now stream)
    unfolding StreamKeys.terminate
    terminate-Keeps now stream =
        >>=-Keeps e I _ _
          (attempt-Keeps e I _ (λ w c. subst I (sym (kick_path_apart e stream.path w)) c))
          (λ kicked.
            >>=-Keeps e I _ _ (attempt-Keeps e I _ (end_stream-Keeps now stream.id))
              (λ done w c. c))

    terminate_active-Keeps :
        (now : Time) (id : Uuid) → Keeps e I (StreamKeys.terminate_active e now id)
    unfolding StreamKeys.terminate_active StreamRepo.get_active_by_stream_key_id
    terminate_active-Keeps now id =
        >>=-Keeps e I _ _
          (attempt-Keeps e I _ (handle-Keeps e I _ _ _ (run-Keeps e I _ (query_row-Preserves I _))))
          (elim [
            | ok stream ↦ terminate-Keeps now stream
            | err x ↦ if-Keeps e I (error_eq x not_found) _ _ (λ w c. c) (λ w c. c)
          ])

-- The keys that a table has, as a predicate on tables.
abbrev HasKeys : List StreamKey → Tables → Type 0
HasKeys ks t = t.stream_keys ≡ ks

HasKeys-streams_ended :
    (ks : List StreamKey) (p : StreamRow → Bool) (now : Time)
    → Preserves (HasKeys ks) (update_streams p (StreamRepo.end_row now))
HasKeys-streams_ended ks p now t n t' h done =
    ap (λ (u : Tables). u.stream_keys) (sym (ok_pair done).1) ∙ h

key_is_active-eq-true : (s : StreamKeyStatus) → key_is_active s ≡ true → s ≡ StreamKeyStatus.active
key_is_active-eq-true s h = ground arith

-- A key found by its ID has it.
select_by_id-id :
    (id : Uuid) (ks : List StreamKey) {key : StreamKey}
    → head? (select (λ k. k.id == id) ks) ≡ some key
    → key.id ≡ id
select_by_id-id id ks {key} h = (==_iff key.id id).0 (head_select-Mem (λ k. k.id == id) ks h).1

-- An active key that is read by its ID is the only one with it.
read-AllActive :
    (id : Uuid) (t t' : Tables) {key : StreamKey}
    → IsConsistent t
    → head? (StreamKeyRepo.select_by_id id t) ≡ some key
    → t' ≡ t
    → key.status ≡ StreamKeyStatus.active
    → AllActive id t'.stream_keys
read-AllActive id t t' {key} c found same active =
    let only = only_with_id (λ k. k.id == id) t.stream_keys c.keys.ids found in
    subst (λ (u : Tables). AllActive id u.stream_keys) (sym same)
      (All-imp t.stream_keys
        (λ k one i.
          ap (λ (x : StreamKey). x.status)
            (one (
              subst (λ (j : Uuid). (k.id == j) ≡ true)
                (sym (select_by_id-id id t.stream_keys found)) i))
          ∙ active)
        only)

module _ (e : Env) (I : Tables → Type 0) (rules : Rules I) where
  open e use {World, tables}

  -- The UPDATE at tables whose keys with the ID are active.
  update_status-Keeps_at :
      (now : Time) (id : Uuid) (w : World)
      → I (tables w)
      → AllActive id (tables w).stream_keys
      → I (tables (StreamKeyRepo.update_status e id StreamKeyStatus.revoked (some now) w).1)
  unfolding StreamKeyRepo.update_status handle
  update_status-Keeps_at now id w c live =
      let left =
        run-Keeps_at e I (update_keys (λ k. k.id == id) (revoke_at now)) w
          (λ a t' h. subst I (ok_pair h).1 (rules.key_revoked id now (tables w) live c)) c in
      >>=-Keeps_at e I _ _ w left (λ n _. affected-Keeps e I n _ left)

  -- From the key that was read on: it is the only one with its ID, and is active still when its
  -- stream has been ended.
  active-Keeps_at :
      (now db_now : Time) (id : Uuid) (key : StreamKey) (w : World)
      → I (tables w)
      → AllActive id (tables w).stream_keys
      → I (
          tables
            ((StreamKeys.terminate_active e db_now id >>= λ _.
                StreamKeyRepo.update_status e id StreamKeyStatus.revoked (some now))
              w).1)
  active-Keeps_at now db_now id key w c live =
      let ended = terminate_active-Keeps e I rules.uses.streams_ended db_now id w c in
      let same =
        terminate_active-Keeps e (HasKeys (tables w).stream_keys)
          (HasKeys-streams_ended (tables w).stream_keys) db_now id w refl in
      >>=-Keeps_at e I _ _ w ended
        (λ u _. update_status-Keeps_at now id _ ended (subst (AllActive id) (sym same) live))

  found-Keeps :
      (now db_now : Time) (id : Uuid) (w : World)
      → I (tables w)
      → (r : Result StreamKey) (w' : World)
      → Looked StreamKeyRepo.scan_error (StreamKeyRepo.select_by_id id) (tables w) r (tables w')
      → I (
          tables
            ((elim r as (λ _. Result (Unit {0}) × World) [
              | ok key ↦
                  (if key_is_active key.status
                      then (StreamKeys.terminate_active e db_now id >>= λ _.
                          StreamKeyRepo.update_status e id StreamKeyStatus.revoked (some now))
                      else fail (domain invalid_status))
                    w'
              | err x ↦ (err x, w')
            ])).1)
  found-Keeps now db_now id w c (ok key) w' (found, same) =
      let c' = subst I (sym same) c in
      elim (Bool-cases (key_is_active key.status)) [
        | inl active ↦
            let ended = active-Keeps_at now db_now id key w' c' (
              read-AllActive id (tables w) (tables w') (rules.uses.consistent _ c) found same
                (key_is_active-eq-true key.status active)) in
            rw active ended
        | inr other ↦ rw other c'
      ]
  found-Keeps now db_now id w c (err x) w' (same, _) = subst I (sym same) c

  pub revoke-Keeps : (now db_now : Time) (id : Uuid) → Keeps e I (StreamKeys.revoke e now db_now id)
  unfolding StreamKeys.revoke StreamKeyRepo.get_by_id ◌>>=◌
  revoke-Keeps now db_now id w c =
      found-Keeps now db_now id w c _ _
        (handle-Looked e (StreamKeyRepo.select_by_id id) w StreamKeyRepo.scan_error)
