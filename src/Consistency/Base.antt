-- ===== src/Consistency/Base.antt =====
-- What a successful statement says of the tables that it leaves.
use rescuestream_api.Prelude.{
  ◌≡◌, refl, subst, ℕ, String, if◌then◌else◌, Bool, true, false, not, ◌&&◌, ◌||◌, List, head?, some,
  arith,
}
use rescuestream_api.Errors.{Result, ok, err, external}
use rescuestream_api.Store.{Tables, Stmt, has_nul, with_text, accept, query_row, query}
use rescuestream_api.Store.Invariant.{Preserves}

module _ {A B : Type 0} where
  pub ok_pair :
      {a a' : A} {b b' : B}
      → ◌≡◌ {A = Result (A × B)} (ok (a, b)) (ok (a', b'))
      → (a ≡ a') × (b ≡ b')
  ok_pair h = ground arith

pub accept-eq-ok :
    (good : Bool) (t : Tables) {n : ℕ} {t' : Tables}
    → accept good t ≡ ok (n, t')
    → (good ≡ true) × (t ≡ t')
accept-eq-ok true t h = (refl, (ok_pair h).1)
accept-eq-ok false t h = cc

pub and-eq-true : (a b : Bool) → (a && b) ≡ true → (a ≡ true) × (b ≡ true)
and-eq-true a b h = ground arith

-- The conditions of an INSERT, one by one.
pub conditions_of_four :
    (a b c d : Bool)
    → (not a && not b && c && d) ≡ true
    → (a ≡ false) × (b ≡ false) × (c ≡ true) × (d ≡ true)
conditions_of_four a b c d h = ground arith

pub conditions_of_six :
    (a b c d e f : Bool)
    → (not a && not b && c && d && e && f) ≡ true
    → (a ≡ false) × (b ≡ false) × (c ≡ true)
conditions_of_six a b c d e f h = ground arith

-- A row that has been found is found in a longer table too.
pub or-true : (a b : Bool) → b ≡ true → (a || b) ≡ true
or-true a b h = ground arith

pub query_row-eq-ok :
    {R : Type 0} (rows : Tables → List R) (t : Tables) {r : R} {t' : Tables}
    → query_row rows t ≡ ok (r, t')
    → (head? (rows t) ≡ some r) × (t ≡ t')
query_row-eq-ok rows t h = ground arith

module _ {R : Type 0} (I : Tables → Type 0) (rows : Tables → List R) where
  pub query_row-Preserves : Preserves I (query_row rows)
  query_row-Preserves t a t' c h = subst I (query_row-eq-ok rows t h).1 c

  pub query-Preserves : Preserves I (query rows)
  query-Preserves t a t' c h = subst I (ok_pair h).1 c

pub with_text-Preserves :
    {A : Type 0} (I : Tables → Type 0) (text : String) (s : Stmt A)
    → Preserves I s
    → Preserves I (with_text text s)
with_text-Preserves {A} I text s keeps t a t' c = by_nul (has_nul text)
  where
    by_nul :
        (b : Bool)
        → ◌≡◌ {A = Result (A × Tables)}
            (if b then err (external "invalid byte sequence") else s t)
            (ok (a, t'))
        → I t'
    by_nul true h = cc
    by_nul false h = keeps t a t' c h
