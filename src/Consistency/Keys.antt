-- ===== src/Consistency/Keys.antt =====
-- The statements on `stream_keys` of internal/database/streamkey_repo.go and
-- internal/service/auth.go.
use mathlib.Core.Bool.{false≢true}
use rescuestream_api.Prelude.{
  ℕ, String, not, ◌&&◌, subst, All-of, All-update_where, ◌≡◌, ◌≢◌, refl, sym, ◌∙◌, ap, Bool, true,
  false, some, List, [], ◌∷◌, any, update, All, Pairwise, ◌==◌, str_eq, eq_iff, ==_iff, arith,
  head?, select, All-imp, All-of_any, All-update, Distinct-update, any-update, head_select,
  Bool-cases, inl, inr,
}
use rescuestream_api.Domain.{Uuid, Time, StreamKeyStatus, StreamKey}
use rescuestream_api.Store.{Tables, update_keys, insert_key, has_nul, fits}
use rescuestream_api.Database.StreamKeyRepo.{set_status, set_last_used}
use rescuestream_api.Service.Auth.{expire}
use rescuestream_api.Consistency.Base.{ok_pair, accept-eq-ok, conditions_of_four, or-true}
use rescuestream_api.Store.Invariant.{
  is_revoked, has_broadcaster, RevokedAtSet, IsConsistent, Preserves,
}

-- An UPDATE of keys that keeps IDs, values and owners, and `revoked_at` in step with the status.
module _ (p : StreamKey → Bool) (f : StreamKey → StreamKey) (id : (k : StreamKey) → (f k).id ≡ k.id)
    (value : (k : StreamKey) → (f k).key_value ≡ k.key_value)
    (owner : (k : StreamKey) → (f k).broadcaster_id ≡ k.broadcaster_id) where
  update_keys-IsConsistent :
      (t : Tables)
      → IsConsistent t
      → All (λ k. p k ≡ true → RevokedAtSet k → RevokedAtSet (f k)) t.stream_keys
      → IsConsistent (record t { stream_keys = update p f t.stream_keys })
  update_keys-IsConsistent t c step = record {
    broadcasters = c.broadcasters;
    keys = record {
      ids = Distinct-update (λ k. k.id) p f t.stream_keys id c.keys.ids;
      values = Distinct-update (λ k. k.key_value) p f t.stream_keys value c.keys.values;
      owned =
          All-update (λ k. has_broadcaster t.broadcasters k ≡ true) p f t.stream_keys
            (λ k _ h.
              subst (λ (o : Uuid). any (λ b. b.id == o) t.broadcasters ≡ true) (sym (owner k)) h)
            c.keys.owned;
      revoked = All-update_where RevokedAtSet p f t.stream_keys step c.keys.revoked;
      texts =
          All-update (λ k. has_nul k.key_value ≡ false) p f t.stream_keys
            (λ k _ h. ap has_nul (value k) ∙ h) c.keys.texts;
    };
    streams = record {
      ids = c.streams.ids;
      one_active = c.streams.one_active;
      owned =
          All-imp t.streams
            (λ s h.
              any-update (λ k. k.id == s.stream_key_id) p f t.stream_keys
                (λ k. ap (λ (i : Uuid). i == s.stream_key_id) (id k))
              ∙ h)
            c.streams.owned;
      ended = c.streams.ended;
    };
  }

-- Recording the last use of a key.
pub set_last_used-Preserves :
    (id : Uuid) (now : Time)
    → Preserves IsConsistent (update_keys (λ k. k.id == id) (set_last_used now))
set_last_used-Preserves id now t a t' c e = subst IsConsistent (ok_pair e).1 (
    update_keys-IsConsistent (λ k. k.id == id) (set_last_used now) (λ k. refl) (λ k. refl)
      (λ k. refl) t c (All-of t.stream_keys (λ k _ h. h)))

-- Revoking a key.
pub revoke-Preserves :
    (id : Uuid) (now : Time)
    → Preserves IsConsistent
        (update_keys (λ k. k.id == id) (set_status StreamKeyStatus.revoked (some now)))
revoke-Preserves id now t a t' c e = subst IsConsistent (ok_pair e).1 (
    update_keys-IsConsistent (λ k. k.id == id) (set_status StreamKeyStatus.revoked (some now))
      (λ k. refl) (λ k. refl) (λ k. refl) t c (All-of t.stream_keys (λ k _ h. refl)))

expire-RevokedAtSet :
    (k : StreamKey) → is_revoked k.status ≡ false → RevokedAtSet k → RevokedAtSet (expire k)
expire-RevokedAtSet k live h = h ∙ live

-- Marking a key expired, if no row with its ID is revoked.
pub expire-IsConsistent :
    (id : Uuid) (t : Tables)
    → IsConsistent t
    → All (λ k. (k.id == id) ≡ true → is_revoked k.status ≡ false) t.stream_keys
    → IsConsistent (record t { stream_keys = update (λ k. k.id == id) expire t.stream_keys })
expire-IsConsistent id t c live =
    update_keys-IsConsistent (λ k. k.id == id) expire (λ k. refl) (λ k. refl) (λ k. refl) t c
      (All-imp t.stream_keys (λ k l h. expire-RevokedAtSet k (l h)) live)

-- The row that a selection finds is the only one with its ID.
pub only_with_id :
    (p : StreamKey → Bool) (ks : List StreamKey) {key : StreamKey}
    → Pairwise (λ a b. a.id ≢ b.id) ks
    → head? (select p ks) ≡ some key
    → All (λ k. (k.id == key.id) ≡ true → k ≡ key) ks
only_with_id p [] d h = cc
only_with_id p (k ∷ ks) {key} d h = elim (Bool-cases (p k)) [
  | inl hit ↦
      let same : k ≡ key = ground arith in
      (
        λ _. same,
        All-imp ks
            (λ j ne e.
              absurd (ne (ap (λ (x : StreamKey). x.id) same ∙ sym ((==_iff j.id key.id).0 e))))
            d.0,
      )
  | inr miss ↦
      let h' : head? (select p ks) ≡ some key = ground arith in
      (
        λ e. absurd ((head_select (λ j. k.id ≢ j.id) p ks h' d.0).0 ((==_iff k.id key.id).0 e)),
        only_with_id p ks d.1 h',
      )
]

-- A text that fits its column is one that the server takes.
pub fits-clean : (n : ℕ) (s : String) → fits n s ≡ true → has_nul s ≡ false
fits-clean n s h = and_first (has_nul s) _ h
  where
    and_first : (a b : Bool) → (not a && b) ≡ true → a ≡ false
    and_first a b h = ground arith

-- INSERT of a key that is active and has no time of revocation.
pub insert_key-Preserves : (k : StreamKey) → RevokedAtSet k → Preserves IsConsistent (insert_key k)
unfolding insert_key
insert_key-Preserves k set t a t' c e =
    let (good, same) = accept-eq-ok _ _ e in
    let (fresh_id, fresh_value, owned, short) = conditions_of_four _ _ _ _ good in
    subst IsConsistent same (record {
      broadcasters = c.broadcasters;
      keys = record {
        ids = (
          All-imp t.stream_keys
              (λ j n i. absurd (false≢true (sym n ∙ (==_iff j.id k.id).1 (sym i))))
              (All-of_any (λ j. j.id == k.id) t.stream_keys fresh_id),
          c.keys.ids,
        );
        values = (
          All-imp t.stream_keys
              (λ j n i. absurd (false≢true (sym n ∙ (eq_iff j.key_value k.key_value).1 (sym i))))
              (All-of_any (λ j. str_eq j.key_value k.key_value) t.stream_keys fresh_value),
          c.keys.values,
        );
        owned = (owned, c.keys.owned);
        revoked = (set, c.keys.revoked);
        texts = (fits-clean 64 k.key_value short, c.keys.texts);
      };
      streams = record {
        ids = c.streams.ids;
        one_active = c.streams.one_active;
        owned = All-imp t.streams (λ s h. or-true (k.id == s.stream_key_id) _ h) c.streams.owned;
        ended = c.streams.ended;
      };
    })
