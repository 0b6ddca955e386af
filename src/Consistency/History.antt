-- ===== src/Consistency/History.antt =====
-- The life of a stream key over any sequence of requests.
use mathlib.Core.List.{Memᴰ}
use rescuestream_api.Prelude.{
  ◌≡◌, ◌≢◌, refl, sym, ◌∙◌, ap, subst, true, false, Bool-cases, only_with_value, inl, inr, some,
  List, [], ◌∷◌, any, head?, ◌==◌, ==_iff, arith, head_select-Mem, head_select-some, All-Memᴰ,
}
use rescuestream_api.Domain.{Uuid, Time, StreamKeyStatus, StreamKey}
use rescuestream_api.Store.{Tables}
use rescuestream_api.Store.Invariant.{IsConsistent}
use rescuestream_api.Env.{Env}
use rescuestream_api.Service.Auth.{AuthRequest, authenticate, shown_key}
use rescuestream_api.Service.Auth.Access.{
  is_valid_iff, Usable, is_allowed, authenticate_allowed_iff,
}
use rescuestream_api.Database.StreamKeyRepo.{select_by_id}
use rescuestream_api.Consistency.Keys.{only_with_id}
use rescuestream_api.Consistency.Kept.{
  Moves, Moves-refl, active-final, Present, IsKept, IsKept-rules, delete_broadcaster-IsKept,
}
use rescuestream_api.Consistency.Reach.{Reach, AllDrops, Reach-Keeps}

Mem-any :
    (id : Uuid) (ks : List StreamKey) {k : StreamKey}
    → Memᴰ k ks
    → k.id ≡ id
    → any (λ j. j.id == id) ks ≡ true
Mem-any id [] here same = elim here [ ]
Mem-any id (j ∷ ks) {k} (Memᴰ.head e) same =
    let hit : (j.id == id) ≡ true =
      (==_iff j.id id).1 (ap (λ (x : StreamKey). x.id) (sym e) ∙ same) in
    rw hit refl
Mem-any id (j ∷ ks) (Memᴰ.tail later) same = ground (arith, Mem-any id ks later same)

-- A key that is present is what its ID is looked up to.
Present-found :
    (k : StreamKey) (t : Tables)
    → IsConsistent t
    → Present k t.stream_keys
    → (k' : StreamKey) × (head? (select_by_id k.id t) ≡ some k') × Moves k k'
Present-found k t c (k', there, m) =
    let (x, found) =
      head_select-some (λ j. j.id == k.id) t.stream_keys (Mem-any k.id t.stream_keys there m.id) in
    let hit = (==_iff x.id k.id).0 (head_select-Mem (λ j. j.id == k.id) t.stream_keys found).1 in
    let same : k' ≡ x =
      All-Memᴰ (λ j. (j.id == x.id) ≡ true → j ≡ x) t.stream_keys
        (only_with_id (λ j. j.id == k.id) t.stream_keys c.keys.ids found) there
        ((==_iff k'.id x.id).1 (m.id ∙ sym hit)) in
    (x, found, subst (Moves k) same m)

-- A present key that was not active is no usable key.
Present-unusable :
    (k : StreamKey) (t : Tables) (now : Time)
    → IsConsistent t
    → Present k t.stream_keys
    → k.status ≢ StreamKeyStatus.active
    → Usable now t k.key_value
    → ⊥
Present-unusable k t now c (k', there, m) retired u =
    let same : u.key ≡ k' =
      All-Memᴰ (λ j. j.key_value ≡ k'.key_value → j ≡ k') t.stream_keys
        (only_with_value (λ (j : StreamKey). j.key_value) t.stream_keys c.keys.values there)
        u.stored (u.shown ∙ sym m.key_value) in
    let active =
      ap (λ (j : StreamKey). j.status) (sym same) ∙ ((is_valid_iff now u.key).0 u.valid).0 in
    retired (active-final k m active)

module _ (e : Env) where
  open e use {World, tables}

  left_IsKept :
      {w w' : World} (k : StreamKey)
      → IsConsistent (tables w)
      → head? (select_by_id k.id (tables w)) ≡ some k
      → (r : Reach e w w') → AllDrops e (λ id. id ≢ k.broadcaster_id) r
      → IsKept k (tables w')
  left_IsKept {w} k c found r spared =
      let stored = (head_select-Mem (λ j. j.id == k.id) (tables w).stream_keys found).0 in
      Reach-Keeps e (IsKept k) (IsKept-rules k) (λ id. id ≢ k.broadcaster_id)
        (delete_broadcaster-IsKept k) r spared (c, (k, stored, Moves-refl k))

  -- Whatever requests are served one after another from consistent tables, and whatever fails, a
  -- key whose broadcaster none of them asks to delete is found by its ID afterwards, with the key
  -- value, the broadcaster and the times of creation and expiry that it had; its status and its time of
  -- revocation are as they were, unless it was active.
  pub Reach-Moves :
      {w w' : World} (k : StreamKey)
      → IsConsistent (tables w)
      → head? (select_by_id k.id (tables w)) ≡ some k
      → (r : Reach e w w') → AllDrops e (λ id. id ≢ k.broadcaster_id) r
      → (k' : StreamKey) × (head? (select_by_id k.id (tables w')) ≡ some k') × Moves k k'
  Reach-Moves {w} {w'} k c found r spared =
      let kept = left_IsKept k c found r spared in Present-found k (tables w') kept.0 kept.1

  -- A key that is not active at some point is never let in after it: whatever requests are served
  -- one after another from consistent tables, and whatever fails, while none asks to delete its
  -- broadcaster, no publish request that shows its value is let in at the end, at any time.
  pub Reach-retired :
      {w w' : World} (k : StreamKey)
      → IsConsistent (tables w)
      → head? (select_by_id k.id (tables w)) ≡ some k
      → k.status ≢ StreamKeyStatus.active
      → (r : Reach e w w') → AllDrops e (λ id. id ≢ k.broadcaster_id) r
      → (now db_now : Time) (req : AuthRequest) → req.action ≡ "publish"
      → shown_key req ≡ k.key_value
      → k.key_value ≢ ""
      → is_allowed (authenticate e now db_now req w').0 ≡ false
  Reach-retired {w} {w'} k c found retired r spared now db_now req publish shown filled =
      let kept = left_IsKept k c found r spared in
      elim (Bool-cases (is_allowed (authenticate e now db_now req w').0)) [
        | inr refused ↦ refused
        | inl allowed ↦
            let given =
              authenticate_allowed_iff e now db_now req w' publish (λ h. filled (sym shown ∙ h)) in
            absurd (
              Present-unusable k (tables w') now kept.0 kept.1 retired
                (subst (Usable now (tables w')) shown (given.0 allowed)))
      ]
