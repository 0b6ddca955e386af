-- ===== src/Consistency/Streams.antt =====
-- The statements on `streams` of internal/database/stream_repo.go.
use mathlib.Core.Bool.{false≢true}
use rescuestream_api.Prelude.{
  ◌≡◌, refl, sym, ◌∙◌, subst, Bool, true, false, ◌==◌, ==_iff, arith, All-imp, All-of_any,
  All-update, Distinct-update, Pairwise-update,
}
use rescuestream_api.Domain.{Time}
use rescuestream_api.Store.{StreamRow, update_streams, insert_stream, clashes}
use rescuestream_api.Database.StreamRepo.{end_row}
use rescuestream_api.Consistency.Base.{ok_pair, accept-eq-ok, conditions_of_six}
use rescuestream_api.Store.Invariant.{has_key, EndedAtSet, IsConsistent, Preserves}

clashes-end_row_left :
    (now : Time) (s r : StreamRow) → clashes s r ≡ false → clashes (end_row now s) r ≡ false
clashes-end_row_left now s r h = refl

clashes-end_row_right :
    (now : Time) (s r : StreamRow) → clashes s r ≡ false → clashes s (end_row now r) ≡ false
clashes-end_row_right now s r h = ground arith

-- Ending streams, whichever the condition selects.
pub end_row-Preserves :
    (p : StreamRow → Bool) (now : Time) → Preserves IsConsistent (update_streams p (end_row now))
end_row-Preserves p now t a t' c e = subst IsConsistent (ok_pair e).1 (record {
  broadcasters = c.broadcasters;
  keys = c.keys;
  streams = record {
    ids = Distinct-update (λ s. s.id) p (end_row now) t.streams (λ s. refl) c.streams.ids;
    one_active =
        Pairwise-update (λ s r. clashes s r ≡ false) p (end_row now) t.streams
          (clashes-end_row_left now) (clashes-end_row_right now) c.streams.one_active;
    owned =
        All-update (λ s. has_key t.stream_keys s ≡ true) p (end_row now) t.streams (λ s _ h. h)
          c.streams.owned;
    ended = All-update EndedAtSet p (end_row now) t.streams (λ s _ h. refl) c.streams.ended;
  };
})

-- INSERT of a stream whose `ended_at` is in step with its status.
pub insert_stream-Preserves :
    (s : StreamRow) → EndedAtSet s → Preserves IsConsistent (insert_stream s)
unfolding insert_stream
insert_stream-Preserves s set t a t' c e =
    let (good, same) = accept-eq-ok _ _ e in
    let (fresh_id, no_clash, owned) = conditions_of_six _ _ _ _ _ _ good in
    subst IsConsistent same (record {
      broadcasters = c.broadcasters;
      keys = c.keys;
      streams = record {
        ids = (
          All-imp t.streams (λ r n i. absurd (false≢true (sym n ∙ (==_iff r.id s.id).1 (sym i))))
              (All-of_any (λ r. r.id == s.id) t.streams fresh_id),
          c.streams.ids,
        );
        one_active = (All-of_any (clashes s) t.streams no_clash, c.streams.one_active);
        owned = (owned, c.streams.owned);
        ended = (set, c.streams.ended);
      };
    })
