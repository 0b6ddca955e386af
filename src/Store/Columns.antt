-- ===== src/Store/Columns.antt =====
-- Texts that fit their columns in internal/database/migrations/000001_initial_schema.up.sql are kept
-- as they are.
use rescuestream_api.Prelude.{
  ◌≡◌, refl, ap, ℕ, String, Bool, true, not, ◌&&◌, Option, none, some, ltb, if◌then◌else◌, arith,
}
use rescuestream_api.Store.{
  characters, has_nul, fits, fits_opt, only_spaces, cut, varchar, varchar_opt,
}

not_cut :
    (nul long spaces : Bool) (s s' : String)
    → (not nul && not long) ≡ true
    → (if long && spaces then s' else s) ≡ s
not_cut nul long spaces s s' h = ground arith

pub varchar-fits : (n : ℕ) (s : String) → fits n s ≡ true → varchar n s ≡ s
varchar-fits n s h = not_cut (has_nul s) (ltb n (characters s)) (only_spaces n s) s (cut n s) h

pub varchar_opt-fits : (n : ℕ) (o : Option String) → fits_opt n o ≡ true → varchar_opt n o ≡ o
varchar_opt-fits n none h = refl
varchar_opt-fits n (some s) h = ap some (varchar-fits n s h)
