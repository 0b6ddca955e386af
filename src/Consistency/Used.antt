-- ===== src/Consistency/Used.antt =====
-- What authentication and the webhooks leave of the tables: internal/service/auth.go and
-- internal/handler/webhook.go.
use rescuestream_api.Prelude.{
  ◌≡◌, refl, sym, ap, ◌∙◌, subst, ℕ, Bool, true, ◌⊎◌, inl, inr, List, [], ◌∷◌, update, All,
  Bool-cases, All-imp, All-of, ◌==◌,
}
use rescuestream_api.Errors.{ok}
use rescuestream_api.Domain.{Uuid, Time, StreamKeyStatus, StreamKey}
use rescuestream_api.Store.{Tables, Stmt, StreamRow, insert_stream, update_streams}
use rescuestream_api.Store.Invariant.{IsConsistent, Preserves}
use rescuestream_api.Database.StreamKeyRepo.{set_last_used}
use rescuestream_api.Database.StreamRepo.{end_row}
use rescuestream_api.Service.Auth.{expire}
use rescuestream_api.Consistency.Base.{ok_pair, accept-eq-ok}
use rescuestream_api.Consistency.Rules.{UseRules, with_keys, consistency_uses}

-- The key later: its last use may have been recorded, and an active key may have expired.
pub record Used (k k' : StreamKey) : Type 0 where
  pub id : k'.id ≡ k.id
  pub key_value : k'.key_value ≡ k.key_value
  pub broadcaster_id : k'.broadcaster_id ≡ k.broadcaster_id
  pub created_at : k'.created_at ≡ k.created_at
  pub expires_at : k'.expires_at ≡ k.expires_at
  pub revoked_at : k'.revoked_at ≡ k.revoked_at
  pub status :
      (k'.status ≡ k.status)
      ⊎ ((k.status ≡ StreamKeyStatus.active) × (k'.status ≡ StreamKeyStatus.expired))

-- The rows of two tables, one by one.
abbrev pub Each : (StreamKey → StreamKey → Type 0) → List StreamKey → List StreamKey → Type 0
Each R [] [] = Unit
Each R [] (y ∷ ys) = ⊥
Each R (x ∷ xs) [] = ⊥
Each R (x ∷ xs) (y ∷ ys) = R x y × Each R xs ys

-- The same broadcasters, and the same keys, used.
pub record IsUsed (t₀ t : Tables) : Type 0 where
  pub consistent : IsConsistent t
  pub broadcasters : t.broadcasters ≡ t₀.broadcasters
  pub stream_keys : Each Used t₀.stream_keys t.stream_keys

Used-refl : (k : StreamKey) → Used k k
Used-refl k = record {
  id = refl;
  key_value = refl;
  broadcaster_id = refl;
  created_at = refl;
  expires_at = refl;
  revoked_at = refl;
  status = inl refl;
}

Each-refl : (ks : List StreamKey) → Each Used ks ks
Each-refl [] = tt
Each-refl (k ∷ ks) = (Used-refl k, Each-refl ks)

pub IsUsed-refl : (t : Tables) → IsConsistent t → IsUsed t t
IsUsed-refl t c = record {
  consistent = c;
  broadcasters = refl;
  stream_keys = Each-refl t.stream_keys;
}

-- An UPDATE that changes rows within the bounds.
Each-update :
    (p : StreamKey → Bool) (f : StreamKey → StreamKey) (ks js : List StreamKey)
    → All (λ j. p j ≡ true → (k : StreamKey) → Used k j → Used k (f j)) js
    → Each Used ks js
    → Each Used ks (update p f js)
Each-update p f [] [] step each = tt
Each-update p f [] (j ∷ js) step each = elim each [ ]
Each-update p f (k ∷ ks) [] step each = elim each [ ]
Each-update p f (k ∷ ks) (j ∷ js) step each =
    let rest = Each-update p f ks js step.1 each.1 in
    elim (Bool-cases (p j)) [
      | inl hit ↦ rw hit (step.0 hit k each.0, rest)
      | inr miss ↦ rw miss (each.0, rest)
    ]

use-Used : (now : Time) (j k : StreamKey) → Used k j → Used k (set_last_used now j)
use-Used now j k u = record {
  id = u.id;
  key_value = u.key_value;
  broadcaster_id = u.broadcaster_id;
  created_at = u.created_at;
  expires_at = u.expires_at;
  revoked_at = u.revoked_at;
  status = u.status;
}

expire-Used : (j k : StreamKey) → j.status ≡ StreamKeyStatus.active → Used k j → Used k (expire j)
expire-Used j k active u = record {
  id = u.id;
  key_value = u.key_value;
  broadcaster_id = u.broadcaster_id;
  created_at = u.created_at;
  expires_at = u.expires_at;
  revoked_at = u.revoked_at;
  status = elim u.status [ inl same ↦ inr (sym same ∙ active, refl) | inr was ↦ inr (was.0, refl) ];
}

module _ (t₀ : Tables) where
  -- A statement that writes neither broadcasters nor keys.
  apart-Preserves :
      (s : Stmt ℕ)
      → Preserves IsConsistent s
      → ((t : Tables) (n : ℕ) (t' : Tables)
          → s t ≡ ok (n, t')
          → (t.broadcasters ≡ t'.broadcasters) × (t.stream_keys ≡ t'.stream_keys))
      → Preserves (IsUsed t₀) s
  apart-Preserves s consistent apart t n t' u done =
      let (same_broadcasters, same_keys) = apart t n t' done in
      record {
        consistent = consistent t n t' u.consistent done;
        broadcasters = sym same_broadcasters ∙ u.broadcasters;
        stream_keys = subst (Each Used t₀.stream_keys) same_keys u.stream_keys;
      }

  stream_added-apart :
      (s : StreamRow) (t : Tables) (n : ℕ) (t' : Tables)
      → insert_stream s t ≡ ok (n, t')
      → (t.broadcasters ≡ t'.broadcasters) × (t.stream_keys ≡ t'.stream_keys)
  unfolding insert_stream
  stream_added-apart s t n t' done =
      let same = (accept-eq-ok _ _ done).1 in
      (ap (λ (u : Tables). u.broadcasters) same, ap (λ (u : Tables). u.stream_keys) same)

  with_keys-IsUsed :
      (id : Uuid) (f : StreamKey → StreamKey) (t : Tables)
      → All (λ j. (j.id == id) ≡ true → (k : StreamKey) → Used k j → Used k (f j)) t.stream_keys
      → IsConsistent (with_keys id f t)
      → IsUsed t₀ t
      → IsUsed t₀ (with_keys id f t)
  with_keys-IsUsed id f t step consistent u = record {
    consistent = consistent;
    broadcasters = u.broadcasters;
    stream_keys = Each-update (λ j. j.id == id) f t₀.stream_keys t.stream_keys step u.stream_keys;
  }

  pub IsUsed-uses : UseRules (IsUsed t₀)
  IsUsed-uses = record {
    consistent = λ t u. u.consistent;
    key_used = λ id now t n t' u done. subst (IsUsed t₀) (ok_pair done).1 (
        with_keys-IsUsed id (set_last_used now) t (All-of t.stream_keys (λ j _. use-Used now j))
          (consistency_uses.key_used id now t _ _ u.consistent refl) u);
    key_expired = λ id t live u.
        with_keys-IsUsed id expire t
          (All-imp t.stream_keys (λ j active hit k. expire-Used j k (active hit)) live)
          (consistency_uses.key_expired id t live u.consistent) u;
    stream_added = λ s ended.
        apart-Preserves (insert_stream s) (consistency_uses.stream_added s ended)
          (stream_added-apart s);
    streams_ended = λ p now.
        apart-Preserves (update_streams p (end_row now)) (consistency_uses.streams_ended p now)
          (λ t n t' done.
            let same = (ok_pair done).1 in
            (ap (λ (v : Tables). v.broadcasters) same, ap (λ (v : Tables). v.stream_keys) same));
  }
