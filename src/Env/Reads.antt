-- ===== src/Env/Reads.antt =====
-- What a SELECT of one row tells about the tables.
use rescuestream_api.Prelude.{
  String, Bool, true, false, subst, if◌then◌else◌, ◌≡◌, refl, ap, ◌⊎◌, inl, inr, none, some, List,
  head?, arith,
}
use rescuestream_api.Errors.{external, Error, no_rows, Result, ok, err, handle}
use rescuestream_api.Store.{Tables, Stmt, query_row, with_text, has_nul}
use rescuestream_api.Env.{Env, Ran, Foreign}

-- The answer to a SELECT of one row: the tables stay; a row is the first of those selected, and an
-- error is `pgx.ErrNoRows` exactly if none is selected, or a library's.
abbrev pub Read : {R : Type 0} → (Tables → List R) → Tables → Result R → Tables → Type 0
Read rows t (ok r) t' = (head? (rows t) ≡ some r) × (t' ≡ t)
Read rows t (err x) t' = (t' ≡ t) × (((head? (rows t) ≡ none) × (x ≡ no_rows)) ⊎ Foreign x)

module _ {R : Type 0} (rows : Tables → List R) (t : Tables) where
  query_row-eq-ok :
      {r : R} {t' : Tables} → query_row rows t ≡ ok (r, t') → (head? (rows t) ≡ some r) × (t' ≡ t)
  query_row-eq-ok h = ground arith

  query_row-eq-err :
      {x : Error} → query_row rows t ≡ err x → (head? (rows t) ≡ none) × (x ≡ no_rows)
  query_row-eq-err h = ground arith

  Ran-Read : (t' : Tables) (r : Result R) → Ran (query_row rows) t r t' → Read rows t r t'
  Ran-Read t' (ok r) h = query_row-eq-ok h
  Ran-Read t' (err x) (same, inl none_found) = (same, inl (query_row-eq-err none_found))
  Ran-Read t' (err x) (same, inr foreign) = (same, inr foreign)

-- The same, of the value and the error that the program makes of the answer.
abbrev pub Looked :
    {R : Type 0} → (Error → Error) → (Tables → List R) → Tables → Result R → Tables → Type 0
Looked g rows t (ok r) t' = (head? (rows t) ≡ some r) × (t' ≡ t)
Looked g rows t (err y) t' =
    (t' ≡ t) × (((head? (rows t) ≡ none) × (y ≡ g no_rows)) ⊎ ((x : Error) × (y ≡ g x) × Foreign x))

Read-Looked :
    {R : Type 0} (g : Error → Error) (rows : Tables → List R) (t t' : Tables) (r : Result R)
    → Read rows t r t'
    → Looked g rows t (elim r as (λ _. Result R) [ ok a ↦ ok a | err x ↦ err (g x) ]) t'
Read-Looked g rows t t' (ok r) h = h
Read-Looked g rows t t' (err x) (same, inl (none_found, e)) = (same, inl (none_found, ap g e))
Read-Looked g rows t t' (err x) (same, inr foreign) = (same, inr (x, refl, foreign))

-- A text that the server refuses is an error of the server: a library's.
with_text-Ran :
    {A : Type 0} (text : String) (s : Stmt A) (t t' : Tables) (r : Result A)
    → Ran (with_text text s) t r t'
    → Ran s t r t'
with_text-Ran {A} text s t t' r ran = by_nul (has_nul text) r ran
  where
    by_nul :
        (b : Bool) (q : Result A)
        → Ran (λ u. if b then err (external "invalid byte sequence") else s u) t q t'
        → Ran s t q t'
    by_nul true (ok a) h = cc
    by_nul true (err x) (same, inl refused) =
        let eq : external "invalid byte sequence" ≡ x = cc in
        (same, inr (subst Foreign eq (refl, λ d. refl)))
    by_nul true (err x) (same, inr foreign) = (same, inr foreign)
    by_nul false q h = h

module _ (e : Env) {R : Type 0} (rows : Tables → List R) (w : e.World) where
  pub run-Read :
      Read rows (e.tables w) (e.run (query_row rows) w).0 (e.tables (e.run (query_row rows) w).1)
  run-Read = Ran-Read rows (e.tables w) _ _ (e.run_lem (query_row rows) w)

  pub handle-Looked_text :
      (text : String) (g : Error → Error)
      → let m = handle ok g (e.run (with_text text (query_row rows))) in
        Looked g rows (e.tables w) (m w).0 (e.tables (m w).1)
  unfolding handle
  handle-Looked_text text g = Read-Looked g rows (e.tables w) _ _ (
      Ran-Read rows (e.tables w) _ _
        (with_text-Ran text (query_row rows) (e.tables w) _ _ (e.run_lem _ w)))

  pub handle-Looked :
      (g : Error → Error)
      → let m = handle ok g (e.run (query_row rows)) in
        Looked g rows (e.tables w) (m w).0 (e.tables (m w).1)
  unfolding handle
  handle-Looked g = Read-Looked g rows (e.tables w) _ _ run-Read
