-- ===== src/Consistency/Kept.antt =====
-- What becomes of one stream key while requests are served: internal/database/streamkey_repo.go and
-- internal/service.
use rescuestream_api.Prelude.{
  ◌≡◌, ◌≢◌, refl, sym, ap, ◌∙◌, subst, ℕ, Bool, true, not, ◌⊎◌, inl, inr, List, [], ◌∷◌, select,
  update, All, Bool-cases, ◌==◌, ==_iff, arith, All-imp, All-of,
}
use mathlib.Core.List.{Memᴰ}
use rescuestream_api.Domain.{Uuid, Time, StreamKeyStatus, StreamKey}
use rescuestream_api.Errors.{ok}
use rescuestream_api.Store.{
  Tables, Stmt, StreamRow, BroadcasterRow, insert_key, insert_stream, update_streams,
  insert_broadcaster, update_broadcasters, delete_broadcaster,
}
use rescuestream_api.Store.Invariant.{IsConsistent, Preserves, RevokedAtSet}
use rescuestream_api.Database.StreamKeyRepo.{set_last_used}
use rescuestream_api.Database.StreamRepo.{end_row}
use rescuestream_api.Database.BroadcasterRepo.{set_details}
use rescuestream_api.Service.Auth.{expire}
use rescuestream_api.Consistency.Keys.{insert_key-Preserves}
use rescuestream_api.Consistency.Base.{ok_pair, accept-eq-ok}
use rescuestream_api.Consistency.Broadcasters.{delete_broadcaster-Preserves}
use rescuestream_api.Consistency.Rules.{
  UseRules, Rules, AllActive, consistency_uses, consistency_rules, revoke_at, with_keys,
}

-- The second key is the first one later: what `Create` wrote stays, and the status and the time of
-- revocation are changed while the key is active alone.
pub record Moves (k k' : StreamKey) : Type 0 where
  pub id : k'.id ≡ k.id
  pub key_value : k'.key_value ≡ k.key_value
  pub broadcaster_id : k'.broadcaster_id ≡ k.broadcaster_id
  pub created_at : k'.created_at ≡ k.created_at
  pub expires_at : k'.expires_at ≡ k.expires_at
  pub final :
      ((k'.status ≡ k.status) × (k'.revoked_at ≡ k.revoked_at))
      ⊎ (k.status ≡ StreamKeyStatus.active)

pub Moves-refl : (k : StreamKey) → Moves k k
Moves-refl k = record {
  id = refl;
  key_value = refl;
  broadcaster_id = refl;
  created_at = refl;
  expires_at = refl;
  final = inl (refl, refl);
}

-- The key is still among the keys of the tables.
abbrev pub Present : StreamKey → List StreamKey → Type 0
Present k ks = (k' : StreamKey) × Memᴰ k' ks × Moves k k'

abbrev pub IsKept : StreamKey → Tables → Type 0
IsKept k t = IsConsistent t × Present k t.stream_keys

module _ (k : StreamKey) where
  used-Moves : {k' : StreamKey} (now : Time) → Moves k k' → Moves k (set_last_used now k')
  used-Moves now m = record {
    id = m.id;
    key_value = m.key_value;
    broadcaster_id = m.broadcaster_id;
    created_at = m.created_at;
    expires_at = m.expires_at;
    final = m.final;
  }

  pub active-final :
      {k' : StreamKey}
      → Moves k k'
      → k'.status ≡ StreamKeyStatus.active
      → k.status ≡ StreamKeyStatus.active
  active-final m active = elim m.final [ inl same ↦ sym same.0 ∙ active | inr was ↦ was ]

  expired-Moves :
      {k' : StreamKey} → Moves k k' → k'.status ≡ StreamKeyStatus.active → Moves k (expire k')
  expired-Moves m active = record {
    id = m.id;
    key_value = m.key_value;
    broadcaster_id = m.broadcaster_id;
    created_at = m.created_at;
    expires_at = m.expires_at;
    final = inr (active-final m active);
  }

  revoked-Moves :
      {k' : StreamKey} (now : Time)
      → Moves k k'
      → k'.status ≡ StreamKeyStatus.active
      → Moves k (revoke_at now k')
  revoked-Moves now m active = record {
    id = m.id;
    key_value = m.key_value;
    broadcaster_id = m.broadcaster_id;
    created_at = m.created_at;
    expires_at = m.expires_at;
    final = inr (active-final m active);
  }

  -- An UPDATE that only moves the rows that it changes.
  Present-update :
      (p : StreamKey → Bool) (f : StreamKey → StreamKey) (ks : List StreamKey)
      → All (λ j. p j ≡ true → Moves k j → Moves k (f j)) ks
      → Present k ks
      → Present k (update p f ks)
  Present-update p f [] moved (k', here, m) = elim here [ ]
  Present-update p f (j ∷ ks) moved (k', Memᴰ.head e, m) =
      let m' = subst (Moves k) e m in
      elim (Bool-cases (p j)) [
        | inl hit ↦ (f j, Memᴰ.head (rw hit refl), moved.0 hit m')
        | inr miss ↦ (j, Memᴰ.head (rw miss refl), m')
      ]
  Present-update p f (j ∷ ks) moved (k', Memᴰ.tail later, m) =
      let (k'', there, m') = Present-update p f ks moved.1 (k', later, m) in
      (k'', Memᴰ.tail there, m')

  Present-select :
      (p : StreamKey → Bool) (ks : List StreamKey)
      → ((k' : StreamKey) → Moves k k' → p k' ≡ true)
      → Present k ks
      → Present k (select p ks)
  Present-select p [] kept (k', here, m) = elim here [ ]
  Present-select p (j ∷ ks) kept (k', Memᴰ.head e, m) =
      let m' = subst (Moves k) e m in (j, rw (kept j m') (Memᴰ.head refl), m')
  Present-select p (j ∷ ks) kept (k', Memᴰ.tail later, m) =
      let (k'', there, m') = Present-select p ks kept (k', later, m) in
      elim (Bool-cases (p j)) [
        | inl hit ↦ (k'', rw hit (Memᴰ.tail there), m')
        | inr miss ↦ (k'', rw miss there, m')
      ]

  -- A statement that does not write the keys.
  apart-Preserves :
      {A : Type 0} (s : Stmt A)
      → Preserves IsConsistent s
      → ((t : Tables) (a : A) (t' : Tables) → s t ≡ ok (a, t') → t.stream_keys ≡ t'.stream_keys)
      → Preserves (IsKept k) s
  apart-Preserves s consistent apart t a t' c done =
      (consistent t a t' c.0 done, subst (Present k) (apart t a t' done) c.1)

  stream_added-apart :
      (s : StreamRow) (t : Tables) (n : ℕ) (t' : Tables)
      → insert_stream s t ≡ ok (n, t')
      → t.stream_keys ≡ t'.stream_keys
  unfolding insert_stream
  stream_added-apart s t n t' done = ap (λ (u : Tables). u.stream_keys) (accept-eq-ok _ _ done).1

  broadcaster_added-apart :
      (b : BroadcasterRow) (t : Tables) (n : ℕ) (t' : Tables)
      → insert_broadcaster b t ≡ ok (n, t')
      → t.stream_keys ≡ t'.stream_keys
  unfolding insert_broadcaster
  broadcaster_added-apart b t n t' done =
      ap (λ (u : Tables). u.stream_keys) (accept-eq-ok _ _ done).1

  broadcaster_changed-apart :
      (good : Bool) (p : BroadcasterRow → Bool) (f : BroadcasterRow → BroadcasterRow) (t : Tables)
      (n : ℕ) (t' : Tables)
      → update_broadcasters good p f t ≡ ok (n, t')
      → t.stream_keys ≡ t'.stream_keys
  broadcaster_changed-apart good p f t n t' done = ground arith

  key_added-IsKept : (j : StreamKey) → RevokedAtSet j → Preserves (IsKept k) (insert_key j)
  unfolding insert_key
  key_added-IsKept j set t n t' c done =
      let (k', there, m) = c.1 in
      (
        insert_key-Preserves j set t n t' c.0 done,
        subst (λ (u : Tables). Present k u.stream_keys) (accept-eq-ok _ _ done).1
            (k', Memᴰ.tail there, m),
      )

  -- A change of the keys with an ID, if it moves the active ones.
  with_keys-Present :
      (id : Uuid) (f : StreamKey → StreamKey) (t : Tables)
      → ((j : StreamKey) → Moves k j → j.status ≡ StreamKeyStatus.active → Moves k (f j))
      → AllActive id t.stream_keys
      → Present k t.stream_keys
      → Present k (with_keys id f t).stream_keys
  with_keys-Present id f t moves live =
      Present-update (λ j. j.id == id) f t.stream_keys
        (All-imp t.stream_keys (λ j active hit m. moves j m (active hit)) live)

  IsKept-uses : UseRules (IsKept k)
  IsKept-uses = record {
    consistent = λ t c. c.0;
    key_used = λ id now t n t' c done. (
      consistency_uses.key_used id now t n t' c.0 done,
      subst (λ (u : Tables). Present k u.stream_keys) (ok_pair done).1
          (Present-update (λ j. j.id == id) (set_last_used now) t.stream_keys
            (All-of t.stream_keys (λ j _ m. used-Moves now m)) c.1),
    );
    key_expired = λ id t live c. (
      consistency_uses.key_expired id t live c.0,
      with_keys-Present id expire t (λ j. expired-Moves) live c.1,
    );
    stream_added = λ s ended.
        apart-Preserves (insert_stream s) (consistency_uses.stream_added s ended)
          (stream_added-apart s);
    streams_ended = λ p now.
        apart-Preserves (update_streams p (end_row now)) (consistency_uses.streams_ended p now)
          (λ t n t' done. ap (λ (u : Tables). u.stream_keys) (ok_pair done).1);
  }

  pub IsKept-rules : Rules (IsKept k)
  IsKept-rules = record {
    uses = IsKept-uses;
    key_revoked = λ id now t live c. (
      consistency_rules.key_revoked id now t live c.0,
      with_keys-Present id (revoke_at now) t (λ j. revoked-Moves now) live c.1,
    );
    key_added = key_added-IsKept;
    broadcaster_added = λ b.
        apart-Preserves (insert_broadcaster b) (consistency_rules.broadcaster_added b)
          (broadcaster_added-apart b);
    broadcaster_changed = λ good id now b.
        apart-Preserves (update_broadcasters good (λ r. r.id == id) (set_details now b))
          (consistency_rules.broadcaster_changed good id now b)
          (broadcaster_changed-apart good _ _);
  }

  -- The deletion of another broadcaster leaves the key.
  pub delete_broadcaster-IsKept :
      (id : Uuid) → id ≢ k.broadcaster_id → Preserves (IsKept k) (delete_broadcaster id)
  unfolding delete_broadcaster
  delete_broadcaster-IsKept id other t n t' c done = (
    delete_broadcaster-Preserves id t n t' c.0 done,
    subst (λ (u : Tables). Present k u.stream_keys) (ok_pair done).1
        (Present-select (λ j. not (j.broadcaster_id == id)) t.stream_keys
          (λ j m. ground (arith, ==_iff j.broadcaster_id id, m.broadcaster_id, other)) c.1),
  )
