-- ===== src/Env/Sorted.antt =====
-- What a SELECT of all rows with ORDER BY … DESC tells about the tables.
use mathlib.Core.List.{Perm}
use rescuestream_api.Prelude.{◌≡◌, sym, subst, ◌≤◌, String, List, Pairwise}
use rescuestream_api.Domain.{Time}
use rescuestream_api.Errors.{Error, Result, ok, err, wrapping, handle}
use rescuestream_api.Store.{Tables, query}
use rescuestream_api.Env.{Env, Ran}
use rescuestream_api.Consistency.Base.{ok_pair}

-- The rows, each once, the latest first.
abbrev pub Latest : {R : Type 0} → (R → Time) → List R → List R → Type 0
Latest by rows xs = Perm xs rows × Pairwise (λ a b. by b ≤ by a) xs

-- The answer to such a SELECT: the tables stay, and the rows are all there, the latest first.
abbrev pub ReadAll : {R : Type 0} → (R → Time) → List R → Tables → Result (List R) → Tables → Type 0
ReadAll by rows t (ok xs) t' = (t' ≡ t) × Latest by rows xs
ReadAll by rows t (err x) t' = t' ≡ t

module _ (e : Env) {R : Type 0} (by : R → Time) (rows : Tables → List R) where
  open e use {World, tables, run, order_desc, order_perm, order_sorted, run_lem}

  Ran-ReadAll :
      (g : Error → Error) (t t' : Tables) (r : Result (List R))
      → Ran (query (λ u. order_desc by (rows u))) t r t'
      → ReadAll by
          (rows t)
          t
          (elim r as (λ _. Result (List R)) [ ok a ↦ ok a | err x ↦ err (g x) ])
          t'
  Ran-ReadAll g t t' (ok xs) ran =
      let (same_rows, same) = ok_pair ran in
      (
        sym same,
        subst (Latest by (rows t)) same_rows (order_perm by (rows t), order_sorted by (rows t)),
      )
  Ran-ReadAll g t t' (err x) ran = ran.0

  pub wrapping-ReadAll :
      (text : String) (w : World)
      → let m = wrapping text (run (query (λ t. order_desc by (rows t)))) in
        ReadAll by (rows (tables w)) (tables w) (m w).0 (tables (m w).1)
  unfolding handle
  wrapping-ReadAll text w = Ran-ReadAll _ (tables w) _ _ (run_lem _ w)
