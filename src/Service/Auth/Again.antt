-- ===== src/Service/Auth/Again.antt =====
-- A grant of internal/service/auth.go does not reserve the key.
use mathlib.Core.List.{Memᴰ}
use mathlib.Core.Bool.{false≢true}
use rescuestream_api.Prelude.{
  ◌≡◌, ◌≢◌, sym, ap, ◌∙◌, subst, String, true, false, List, [], ◌∷◌, update, ◌==◌, ==_iff, eq_iff,
  head_select-Mem,
}
use rescuestream_api.Domain.{Time, StreamKey, is_past}
use rescuestream_api.Errors.{Result, ok, err}
use rescuestream_api.Store.{Tables}
use rescuestream_api.Store.Invariant.{IsConsistent}
use rescuestream_api.Env.{Env}
use rescuestream_api.Database.StreamKeyRepo.{set_last_used}
use rescuestream_api.Service.Auth.{AuthRequest, AuthResult, shown_key, authenticate, reject}
use rescuestream_api.Service.Auth.Outcome.{
  Decision, revoked, expired, expires, busy, granted, Outcome, unknown, known, Done, with_key_value,
}
use rescuestream_api.Service.Auth.Answers.{authenticate-Outcome}
use rescuestream_api.Service.Auth.Total.{authenticate-Total}
use rescuestream_api.Service.Auth.Access.{
  Usable-clean, Usable, is_valid_iff, is_allowed, authenticate_allowed_iff,
}
use rescuestream_api.Consistency.Rules.{consistency_uses}
use rescuestream_api.Consistency.Authenticate.{authenticate-Keeps}

Mem-update_hit :
    (key : StreamKey) (f : StreamKey → StreamKey) (ks : List StreamKey)
    → Memᴰ key ks
    → Memᴰ (f key) (update (λ k. k.id == key.id) f ks)
Mem-update_hit key f [] here = elim here [ ]
Mem-update_hit key f (k ∷ ks) (Memᴰ.head e) =
    let hit : (k.id == key.id) ≡ true =
      (==_iff k.id key.id).1 (ap (λ (x : StreamKey). x.id) (sym e)) in
    rw hit (Memᴰ.head (ap f e))
Mem-update_hit key f (k ∷ ks) (Memᴰ.tail later) = Memᴰ.tail (Mem-update_hit key f ks later)

-- No stored key with the value has expired at `later`.
abbrev pub IsAlive : Time → Tables → String → Type 0
IsAlive later t value =
    (k : StreamKey)
    → Memᴰ k t.stream_keys
    → k.key_value ≡ value
    → is_past later k.expires_at ≡ false

module _ (now db_now later : Time) (value : String) (t t' : Tables) (r : AuthResult)
    (alive : IsAlive later t value) (allowed : r.allowed ≡ true) where
  not_refused : {s : String} → r ≡ reject s → ⊥
  not_refused e = false≢true (sym (ap (λ (x : AuthResult). x.allowed) e) ∙ allowed)

  Decision-Usable :
      (key : StreamKey)
      → Memᴰ key t.stream_keys
      → key.key_value ≡ value
      → Decision now db_now t key r t'
      → Usable later t' value
  Decision-Usable key m shown (revoked _ e _) = absurd (not_refused e)
  Decision-Usable key m shown (expired _ e _) = absurd (not_refused e)
  Decision-Usable key m shown (expires _ _ e _) = absurd (not_refused e)
  Decision-Usable key m shown (busy _ _ _ e _) = absurd (not_refused e)
  Decision-Usable key m shown (granted active _ free _ left) =
      subst (λ u. Usable later u value) (sym left)
        (record {
          key = set_last_used db_now key;
          stored = Mem-update_hit key (set_last_used db_now) t.stream_keys m;
          shown = shown;
          valid = (is_valid_iff later (set_last_used db_now key)).1 (active, alive key m shown);
          unused = free;
        })

  Outcome-Usable : Outcome now db_now value t r t' → Usable later t' value
  Outcome-Usable (unknown _ e _) = absurd (not_refused e)
  Outcome-Usable (known key found d) =
      let (m, same) = head_select-Mem (with_key_value value) t.stream_keys found in
      Decision-Usable key m ((eq_iff key.key_value value).0 same) d

module _ (e : Env) where
  open e use {World, tables, healthy}

  Done-Usable :
      (now db_now later : Time) (value : String) (t : Tables) (a : Result AuthResult × World)
      → IsAlive later t value
      → is_allowed a.0 ≡ true
      → Done (λ r w'. Outcome now db_now value t r (tables w')) a
      → Usable later (tables a.1) value
  Done-Usable now db_now later value t (ok r, w') alive allowed d =
      Outcome-Usable now db_now later value t (tables w') r alive allowed d
  Done-Usable now db_now later value t (err x, w') alive allowed d = absurd (false≢true allowed)

  -- While the database answers and is consistent, a publish request that is let in does not keep the
  -- next one out: a second publish request with the same key is let in too, as long as no stored key with the
  -- value has expired.
  pub authenticate_again :
      (now db_now later db_later : Time) (req again : AuthRequest) (w : World)
      → healthy w ≡ true
      → IsConsistent (tables w)
      → req.action ≡ "publish"
      → shown_key req ≢ ""
      → again.action ≡ "publish"
      → shown_key again ≡ shown_key req
      → IsAlive later (tables w) (shown_key req)
      → is_allowed (authenticate e now db_now req w).0 ≡ true
      → is_allowed (authenticate e later db_later again (authenticate e now db_now req w).1).0
        ≡ true
  authenticate_again now db_now later db_later req again w up c publish shown publish' same alive
        allowed =
      let w' = (authenticate e now db_now req w).1 in
      let usable =
        Done-Usable now db_now later (shown_key req) (tables w) _ alive allowed
          (authenticate-Outcome e now db_now req w publish shown) in
      let shown_before = (authenticate_allowed_iff e now db_now req w publish shown).0 allowed in
      let (_, _, given) =
        authenticate-Total e now db_now req w up
          (Usable-clean now (tables w) (shown_key req) c shown_before) in
      let c' = authenticate-Keeps e IsConsistent consistency_uses now db_now req w c in
      (authenticate_allowed_iff e later db_later again w' publish' (λ h. shown (sym same ∙ h))).1
        given.up c' (subst (Usable later (tables w')) (sym same) usable)
