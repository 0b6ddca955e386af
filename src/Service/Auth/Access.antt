-- ===== src/Service/Auth/Access.antt =====
-- Who may publish: `Authenticate` of internal/service/auth.go against `IsValid` of
-- internal/domain/streamkey.go.
use mathlib.Core.Bool.{false≢true}
use mathlib.Core.List.{Memᴰ}
use rescuestream_api.Prelude.{
  ◌≡◌, ◌≢◌, ◌↔◌, sym, ◌∙◌, ap, subst, String, Bool, true, false, eq_iff, arith, head_select-Mem,
  only_with_value, All-Memᴰ, All-of_any, Pairwise,
}
use rescuestream_api.Domain.{Time, StreamKeyStatus, StreamKey, is_past, is_valid}
use rescuestream_api.Errors.{Result, ok, err}
use rescuestream_api.Store.{has_nul, Tables}
use rescuestream_api.Store.Invariant.{IsConsistent}
use rescuestream_api.Env.{Env}
use rescuestream_api.Service.Auth.{AuthRequest, AuthResult, reject, shown_key, authenticate}
use rescuestream_api.Service.Auth.Outcome.{
  Decision, revoked, expired, expires, busy, granted, Outcome, unknown, known, Done, in_use,
  with_key_value,
}
use rescuestream_api.Service.Auth.Answers.{authenticate-Outcome}
use rescuestream_api.Service.Auth.Total.{authenticate-Total}

abbrev pub is_allowed : Result AuthResult → Bool
is_allowed (ok r) = r.allowed
is_allowed (err x) = false

-- A stored key with the value that was shown, valid at `now` and with no active stream.
pub record Usable (now : Time) (t : Tables) (value : String) : Type 0 where
  pub key : StreamKey
  pub stored : Memᴰ key t.stream_keys
  pub shown : key.key_value ≡ value
  pub valid : is_valid now key ≡ true
  pub unused : in_use t key ≡ false

pub is_valid_iff :
    (now : Time) (k : StreamKey)
    → (is_valid now k ≡ true)
      ↔ ((k.status ≡ StreamKeyStatus.active) × (is_past now k.expires_at ≡ false))
unfolding is_valid
is_valid_iff now k = ground arith

module _ (now db_now : Time) (value : String) (t t' : Tables) (r : AuthResult) where
  refused : {s : String} → r ≡ reject s → r.allowed ≡ true → ⊥
  refused e h = false≢true (sym (ap (λ (x : AuthResult). x.allowed) e) ∙ h)

  Decision-Usable :
      (key : StreamKey)
      → Memᴰ key t.stream_keys
      → key.key_value ≡ value
      → Decision now db_now t key r t'
      → r.allowed ≡ true
      → Usable now t value
  Decision-Usable key m v (revoked _ e _) h = absurd (refused e h)
  Decision-Usable key m v (expired _ e _) h = absurd (refused e h)
  Decision-Usable key m v (expires _ _ e _) h = absurd (refused e h)
  Decision-Usable key m v (busy _ _ _ e _) h = absurd (refused e h)
  Decision-Usable key m v (granted active alive free e _) h = record {
    key = key;
    stored = m;
    shown = v;
    valid = (is_valid_iff now key).1 (active, alive);
    unused = free;
  }

  Outcome-Usable : Outcome now db_now value t r t' → r.allowed ≡ true → Usable now t value
  Outcome-Usable (unknown _ e _) h = absurd (refused e h)
  Outcome-Usable (known key found d) h =
      let (m, same) = head_select-Mem (with_key_value value) t.stream_keys found in
      Decision-Usable key m ((eq_iff key.key_value value).0 same) d h

  -- The decision on a usable key is to let it in.
  Usable-Decision :
      (key : StreamKey)
      → is_valid now key ≡ true
      → in_use t key ≡ false
      → Decision now db_now t key r t'
      → r.allowed ≡ true
  Usable-Decision key v free (revoked s _ _) = let live = (is_valid_iff now key).0 v in cc (live.0)
  Usable-Decision key v free (expired s _ _) = let live = (is_valid_iff now key).0 v in cc (live.0)
  Usable-Decision key v free (expires _ past _ _) =
      absurd (false≢true (sym ((is_valid_iff now key).0 v).1 ∙ past))
  Usable-Decision key v free (busy _ _ used _ _) = absurd (false≢true (sym free ∙ used))
  Usable-Decision key v free (granted _ _ _ e _) = ap (λ (x : AuthResult). x.allowed) e

  Usable-Outcome :
      Pairwise (λ (j k : StreamKey). j.key_value ≢ k.key_value) t.stream_keys
      → Usable now t value
      → Outcome now db_now value t r t'
      → r.allowed ≡ true
  Usable-Outcome distinct u (unknown none_found _ _) = absurd (
      false≢true (
        sym (
          All-Memᴰ _ t.stream_keys (All-of_any (with_key_value value) t.stream_keys none_found)
            u.stored)
        ∙ (eq_iff u.key.key_value value).1 u.shown))
  Usable-Outcome distinct u (known key found d) =
      let (m, same) = head_select-Mem (with_key_value value) t.stream_keys found in
      let only = only_with_value (λ (k : StreamKey). k.key_value) t.stream_keys distinct u.stored in
      let same_key =
        All-Memᴰ _ t.stream_keys only m ((eq_iff key.key_value value).0 same ∙ sym u.shown) in
      Usable-Decision key (subst (λ k. is_valid now k ≡ true) (sym same_key) u.valid)
        (subst (λ k. in_use t k ≡ false) (sym same_key) u.unused) d

Done-Usable :
    {W : Type 0} (tables : W → Tables) (now db_now : Time) (value : String) (t : Tables)
    (a : Result AuthResult × W)
    → Done (λ r w'. Outcome now db_now value t r (tables w')) a
    → is_allowed a.0 ≡ true
    → Usable now t value
Done-Usable tables now db_now value t (ok r, w') d h =
    Outcome-Usable now db_now value t (tables w') r d h
Done-Usable tables now db_now value t (err x, w') d h = absurd (false≢true h)

Usable-allowed :
    {W : Type 0} (tables : W → Tables) (now db_now : Time) (value : String) (t : Tables)
    (a : Result AuthResult × W) (r : AuthResult)
    → Pairwise (λ (j k : StreamKey). j.key_value ≢ k.key_value) t.stream_keys
    → Usable now t value
    → a.0 ≡ ok r
    → Done (λ r w'. Outcome now db_now value t r (tables w')) a
    → is_allowed a.0 ≡ true
Usable-allowed tables now db_now value t (ok r, w') s distinct u h d =
    Usable-Outcome now db_now value t (tables w') r distinct u d
Usable-allowed tables now db_now value t (err x, w') s distinct u h d = cc

-- In consistent tables no key that is stored has a text that the server refuses.
pub Usable-clean :
    (now : Time) (t : Tables) (value : String)
    → IsConsistent t
    → Usable now t value
    → has_nul value ≡ false
Usable-clean now t value c u =
    ap has_nul (sym u.shown)
    ∙ All-Memᴰ (λ (k : StreamKey). has_nul k.key_value ≡ false) t.stream_keys c.keys.texts u.stored

-- A publish request that shows a key is let in only if the key is stored, valid by `IsValid` at the
-- time of the request and without an active stream, whatever fails on the way. While the database
-- can be reached and the tables are consistent, it is let in exactly then.
pub authenticate_allowed_iff :
    (e : Env) (now db_now : Time) (req : AuthRequest) (w : e.World)
    → req.action ≡ "publish"
    → shown_key req ≢ ""
    → let allowed = is_allowed (authenticate e now db_now req w).0 ≡ true in
      (allowed → Usable now (e.tables w) (shown_key req))
      × (e.healthy w ≡ true
          → IsConsistent (e.tables w)
          → Usable now (e.tables w) (shown_key req)
          → allowed)
authenticate_allowed_iff e now db_now req w publish shown =
    let outcome = authenticate-Outcome e now db_now req w publish shown in
    (
      Done-Usable e.tables now db_now (shown_key req) (e.tables w) _ outcome,
      λ up c u.
          let (r, t, g) =
            authenticate-Total e now db_now req w up
              (Usable-clean now (e.tables w) (shown_key req) c u) in
          Usable-allowed e.tables now db_now (shown_key req) (e.tables w) _ r c.keys.values u
            g.result outcome,
    )
