-- ===== src/Consistency/Broadcasters.antt =====
-- The statements on `broadcasters` of internal/database/broadcaster_repo.go; the DELETE cascades.
use mathlib.Core.Bool.{false≢true}
use rescuestream_api.Prelude.{
  ◌≡◌, refl, sym, ◌∙◌, subst, Bool, true, false, not, ◌&&◌, List, ◌==◌, ==_iff, arith, All-imp,
  All-of, All-of_any, Distinct-update, any-update, All-select, Pairwise-select, any-select, select,
  if◌then◌else◌,
}
use rescuestream_api.Domain.{Uuid, Time, StreamKey, Broadcaster}
use rescuestream_api.Errors.{Result, ok, err, external}
use rescuestream_api.Store.{
  has_nul, BroadcasterRow, StreamRow, update_broadcasters, insert_broadcaster, delete_broadcaster,
  is_key_of,
}
use rescuestream_api.Database.BroadcasterRepo.{set_details}
use rescuestream_api.Consistency.Base.{ok_pair, accept-eq-ok, or-true}
use rescuestream_api.Store.Invariant.{
  has_broadcaster, has_key, RevokedAtSet, EndedAtSet, IsConsistent, Preserves,
}

module _ {A : Type 0} where
  -- A statement that answered was not refused.
  unless-eq-ok :
      (bad : Bool) (x y : Result A) {r : A}
      → (if bad then err (external "value too long") else y) ≡ ok r
      → y ≡ ok r
  unless-eq-ok true x y h = cc
  unless-eq-ok false x y h = h

-- Changing the details of a broadcaster.
pub set_details-Preserves :
    (good : Bool) (id : Uuid) (now : Time) (b : Broadcaster)
    → Preserves IsConsistent (update_broadcasters good (λ r. r.id == id) (set_details now b))
set_details-Preserves good id now b t a t' c e =
    subst IsConsistent (ok_pair (unless-eq-ok _ (err (external "")) _ e)).1 (record {
      broadcasters =
          Distinct-update (λ r. r.id) (λ r. r.id == id) (set_details now b) t.broadcasters
            (λ r. refl) c.broadcasters;
      keys = record {
        ids = c.keys.ids;
        values = c.keys.values;
        owned =
            All-imp t.stream_keys
              (λ k h.
                any-update (λ r. r.id == k.broadcaster_id) (λ r. r.id == id) (set_details now b)
                  t.broadcasters (λ r. refl)
                ∙ h)
              c.keys.owned;
        revoked = c.keys.revoked;
        texts = c.keys.texts;
      };
      streams = c.streams;
    })

first_condition : (a b : Bool) → (not a && b) ≡ true → a ≡ false
first_condition a b h = ground arith

pub insert_broadcaster-Preserves :
    (b : BroadcasterRow) → Preserves IsConsistent (insert_broadcaster b)
unfolding insert_broadcaster
insert_broadcaster-Preserves b t a t' c e =
    let (good, same) = accept-eq-ok _ _ e in
    subst IsConsistent same (record {
      broadcasters = (
        All-imp t.broadcasters (λ r n i. absurd (false≢true (sym n ∙ (==_iff r.id b.id).1 (sym i))))
            (All-of_any (λ r. r.id == b.id) t.broadcasters (first_condition _ _ good)),
        c.broadcasters,
      );
      keys = record {
        ids = c.keys.ids;
        values = c.keys.values;
        owned = All-imp t.stream_keys (λ k h. or-true (b.id == k.broadcaster_id) _ h) c.keys.owned;
        revoked = c.keys.revoked;
        texts = c.keys.texts;
      };
      streams = c.streams;
    })

other_owner :
    (owner id b : Uuid) → not (owner == id) ≡ true → (b == owner) ≡ true → not (b == id) ≡ true
other_owner owner id b h e = ground arith

other_key :
    (id s : Uuid) (k : StreamKey)
    → (k.broadcaster_id == id && k.id == s) ≡ false
    → (k.id == s) ≡ true
    → not (k.broadcaster_id == id) ≡ true
other_key id s k h e = ground arith

eq-false_of_not : (a : Bool) → not a ≡ true → a ≡ false
eq-false_of_not a h = ground arith

-- A stream that the cascade keeps still has its key.
kept_key :
    (id : Uuid) (ks : List StreamKey) (s : StreamRow)
    → has_key ks s ≡ true
    → not (is_key_of ks id s.stream_key_id) ≡ true
    → has_key (select (λ k. not (k.broadcaster_id == id)) ks) s ≡ true
kept_key id ks s h kept =
    any-select (λ k. k.id == s.stream_key_id) (λ k. not (k.broadcaster_id == id)) ks
      (All-imp ks (λ k n e. other_key id s.stream_key_id k n e)
        (All-of_any (λ k. k.broadcaster_id == id && k.id == s.stream_key_id) ks
          (eq-false_of_not _ kept)))
      h

-- A key that the cascade keeps still has its broadcaster.
kept_broadcaster :
    (id : Uuid) (bs : List BroadcasterRow) (k : StreamKey)
    → has_broadcaster bs k ≡ true
    → not (k.broadcaster_id == id) ≡ true
    → has_broadcaster (select (λ b. not (b.id == id)) bs) k ≡ true
kept_broadcaster id bs k h kept =
    any-select (λ b. b.id == k.broadcaster_id) (λ b. not (b.id == id)) bs
      (All-of bs (λ b e. other_owner k.broadcaster_id id b.id kept e)) h

-- Deleting a broadcaster with its keys and their streams.
pub delete_broadcaster-Preserves : (id : Uuid) → Preserves IsConsistent (delete_broadcaster id)
unfolding delete_broadcaster
delete_broadcaster-Preserves id t a t' c e =
    let kept = λ (k : StreamKey). not (k.broadcaster_id == id) in
    let live = λ (s : StreamRow). not (is_key_of t.stream_keys id s.stream_key_id) in
    subst IsConsistent (ok_pair e).1 (record {
      broadcasters = Pairwise-select _ (λ b. not (b.id == id)) t.broadcasters c.broadcasters;
      keys = record {
        ids = Pairwise-select _ kept t.stream_keys c.keys.ids;
        values = Pairwise-select _ kept t.stream_keys c.keys.values;
        owned =
            All-imp _ (λ k h. kept_broadcaster id t.broadcasters k h.0 h.1)
              (All-select _ kept t.stream_keys c.keys.owned);
        revoked =
            All-imp _ (λ k h. h.0) (All-select RevokedAtSet kept t.stream_keys c.keys.revoked);
        texts =
            All-imp _ (λ k h. h.0)
              (All-select (λ (k : StreamKey). has_nul k.key_value ≡ false) kept t.stream_keys
                c.keys.texts);
      };
      streams = record {
        ids = Pairwise-select _ live t.streams c.streams.ids;
        one_active = Pairwise-select _ live t.streams c.streams.one_active;
        owned =
            All-imp _ (λ s h. kept_key id t.stream_keys s h.0 h.1)
              (All-select _ live t.streams c.streams.owned);
        ended = All-imp _ (λ s h. h.0) (All-select EndedAtSet live t.streams c.streams.ended);
      };
    })
