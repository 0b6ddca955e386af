-- ===== src/Service/StreamKeys/Revoked.antt =====
-- What a successful `Revoke` of internal/service/streamkey.go leaves.
use mathlib.Core.Bool.{false≢true}
use mathlib.Core.List.{Memᴰ}
use rescuestream_api.Prelude.{
  ◌≡◌, ◌≢◌, refl, sym, ◌∙◌, subst, ℕ, Bool, true, false, some, ◌==◌, ==_iff, String, if◌then◌else◌,
  All, All-of, All-update_cases, All-Memᴰ,
}
use rescuestream_api.Domain.{Uuid, Time, StreamKeyStatus, StreamKey, key_is_active}
use rescuestream_api.Errors.{domain, not_found, invalid_status, Result, ok, pure, fail, ◌>>◌}
use rescuestream_api.Store.{to_column, Tables, update_keys}
use rescuestream_api.Env.{Env}
use rescuestream_api.Env.Rules.{ok≢err, bind_rule, run-eq-ok}
use rescuestream_api.Database.StreamKeyRepo
use rescuestream_api.Service.Auth.{AuthRequest, shown_key, authenticate}
use rescuestream_api.Service.Auth.Access.{
  is_allowed, Usable, is_valid_iff, authenticate_allowed_iff,
}
use rescuestream_api.Service.StreamKeys.{revoke, terminate_active}
use rescuestream_api.Consistency.Base.{ok_pair}

active≢revoked : StreamKeyStatus.active ≢ StreamKeyStatus.revoked
active≢revoked h = cc

-- Every row with the ID is revoked, at the time `now` in the resolution of the column.
abbrev pub Settled : Time → Uuid → Tables → Type 0
Settled now id t =
    All
      (λ (k : StreamKey).
        (k.id == id) ≡ true
        → (k.status ≡ StreamKeyStatus.revoked) × (k.revoked_at ≡ some (to_column now)))
      t.stream_keys

set_status-Settled :
    (now : Time) (id : Uuid) (t : Tables) (n : ℕ) (t' : Tables)
    → update_keys (λ k. k.id == id) (StreamKeyRepo.set_status StreamKeyStatus.revoked (some now)) t
      ≡ ok (n, t')
    → Settled now id t'
set_status-Settled now id t n t' h = subst (Settled now id) (ok_pair h).1 (
    All-update_cases _ (λ k. k.id == id)
      (StreamKeyRepo.set_status StreamKeyStatus.revoked (some now)) t.stream_keys
      (All-of t.stream_keys
        (λ k. (λ _ _. (refl, refl), λ miss hit. absurd (false≢true (sym miss ∙ hit))))))

module _ (e : Env) (now db_now : Time) (id : Uuid) where
  open e use {World, tables}

  -- If the call succeeds, the key is revoked.
  abbrev IfDone : {A : Type 0} → Result A × World → Type 0
  IfDone {A} r = (a : A) → r.0 ≡ ok a → Settled now id (tables r.1)

  affected-IfDone :
      (n : ℕ) (w : World) → Settled now id (tables w) → IfDone (StreamKeyRepo.affected n w)
  affected-IfDone n w s = by_test (n == 0)
    where
      by_test : (b : Bool) → IfDone ((if b then fail (domain not_found) else pure tt) w)
      by_test true a h = s
      by_test false a h = s

  update_status-IfDone :
      (w : World) → IfDone (StreamKeyRepo.update_status e id StreamKeyStatus.revoked (some now) w)
  unfolding StreamKeyRepo.update_status
  update_status-IfDone w =
      bind_rule IfDone _ _ w
        (λ n h. affected-IfDone n _ (set_status-Settled now id _ n _ (run-eq-ok e _ w _ h)))
        (λ x _ a h. absurd (ok≢err (sym h)))

  active-IfDone :
      (b : Bool) (w : World)
      → IfDone (
          (if b
              then (terminate_active e db_now id
                  >> StreamKeyRepo.update_status e id StreamKeyStatus.revoked (some now))
              else fail (domain invalid_status))
            w)
  active-IfDone true w =
      bind_rule IfDone _ _ w (λ _ _. update_status-IfDone _) (λ x _ a h. absurd (ok≢err (sym h)))
  active-IfDone false w = λ a h. absurd (ok≢err (sym h))

  pub revoke-Settled : (w : World) → IfDone (revoke e now db_now id w)
  unfolding revoke
  revoke-Settled w =
      bind_rule IfDone _ _ w (λ key _. active-IfDone (key_is_active key.status) _)
        (λ x _ a h. absurd (ok≢err (sym h)))

  Settled-Usable :
      (t : Tables) (later : Time) (value : String)
      → Settled now id t
      → Usable later t value
      → (key : StreamKey) × Memᴰ key t.stream_keys × (key.key_value ≡ value) × (key.id ≢ id)
  Settled-Usable t later value s u = (
    u.key,
    u.stored,
    u.shown,
    λ same.
        let gone = All-Memᴰ _ t.stream_keys s u.stored ((==_iff u.key.id id).1 same) in
        let live = (is_valid_iff later u.key).0 u.valid in
        absurd (active≢revoked (sym live.0 ∙ gone.0)),
  )

  -- When the revocation of a key has succeeded, every row with its ID is revoked at the time of the
  -- request, whatever failed on the way; and a publish request that is let in next is let in by a
  -- stored key with another ID.
  pub revoke_refuses :
      (w : World) (later db_later : Time) (req : AuthRequest)
      → (revoke e now db_now id w).0 ≡ ok tt
      → req.action ≡ "publish"
      → shown_key req ≢ ""
      → let w' = (revoke e now db_now id w).1 in
        Settled now id (tables w')
        × (is_allowed (authenticate e later db_later req w').0 ≡ true
            → (key : StreamKey) × Memᴰ key (tables w').stream_keys
              × (key.key_value ≡ shown_key req)
              × (key.id ≢ id))
  revoke_refuses w later db_later req done publish shown =
      let s = revoke-Settled w tt done in
      (
        s,
        λ h.
            Settled-Usable (tables (revoke e now db_now id w).1) later (shown_key req) s
              ((authenticate_allowed_iff e later db_later req _ publish shown).0 h),
      )
