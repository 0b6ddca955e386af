-- ===== src/Prelude/Rows.antt =====
-- How `update` acts on the predicates of a list of rows.
use mathlib.Core.Path.{◌≡◌, refl, sym, ◌∙◌}
use mathlib.Core.Logic.{◌≢◌}
use mathlib.Core.Bool.{Bool, true, false}
use mathlib.Core.List.{List, [], ◌∷◌}
use native.Mathlib.Omega.{arith}
use rescuestream_api.Prelude.Tests.{if◌then◌else◌}
use rescuestream_api.Prelude.Lists.{any, update, All, Pairwise}

module _ {A : Type 0} where
  pub All-imp : {P Q : A → Type 0} (xs : List A) → ((x : A) → P x → Q x) → All P xs → All Q xs
  All-imp [] f all = tt
  All-imp (x ∷ xs) f all = (f x all.0, All-imp xs f all.1)

  pub All-of_any : (p : A → Bool) (xs : List A) → any p xs ≡ false → All (λ x. p x ≡ false) xs
  All-of_any p [] h = tt
  All-of_any p (x ∷ xs) h = (ground arith, All-of_any p xs (ground arith))

  pub any_of_All : (p : A → Bool) (xs : List A) → All (λ x. p x ≡ false) xs → any p xs ≡ false
  any_of_All p [] h = refl
  any_of_All p (x ∷ xs) h = rw (h.0) (any_of_All p xs h.1)

  if_lem :
      (P : A → Type 0) (b : Bool) (x y : A)
      → (b ≡ true → P x)
      → (b ≡ false → P y)
      → P (if b then x else y)
  if_lem P true x y f g = f refl
  if_lem P false x y f g = g refl

  pub All-update :
      (P : A → Type 0) (p : A → Bool) (f : A → A) (xs : List A)
      → ((x : A) → p x ≡ true → P x → P (f x))
      → All P xs
      → All P (update p f xs)
  All-update P p f [] step all = tt
  All-update P p f (x ∷ xs) step all =
      (if_lem P (p x) (f x) x (λ h. step x h all.0) (λ _. all.0), All-update P p f xs step all.1)

  -- The same, where the step is known of the rows at hand.
  pub All-update_where :
      (P : A → Type 0) (p : A → Bool) (f : A → A) (xs : List A)
      → All (λ x. p x ≡ true → P x → P (f x)) xs
      → All P xs
      → All P (update p f xs)
  All-update_where P p f [] step all = tt
  All-update_where P p f (x ∷ xs) step all = (
    if_lem P (p x) (f x) x (λ h. step.0 h all.0) (λ _. all.0),
    All-update_where P p f xs step.1 all.1,
  )

  -- What an update writes on the rows it selects, and what holds of the others.
  pub All-update_cases :
      (P : A → Type 0) (p : A → Bool) (f : A → A) (xs : List A)
      → All (λ x. (p x ≡ true → P (f x)) × (p x ≡ false → P x)) xs
      → All P (update p f xs)
  All-update_cases P p f [] cases = tt
  All-update_cases P p f (x ∷ xs) cases =
      (if_lem P (p x) (f x) x cases.0.0 cases.0.1, All-update_cases P p f xs cases.1)

  pub All-of : {P : A → Type 0} (xs : List A) → ((x : A) → P x) → All P xs
  All-of [] f = tt
  All-of (x ∷ xs) f = (f x, All-of xs f)

  All-update_right :
      (R : A → A → Type 0) (p : A → Bool) (f : A → A) (x : A) (xs : List A)
      → ((y : A) → R x y → R x (f y))
      → All (R x) xs
      → All (R x) (update p f xs)
  All-update_right R p f x xs step all = All-update (R x) p f xs (λ y _ h. step y h) all

  pub Pairwise-update :
      (R : A → A → Type 0) (p : A → Bool) (f : A → A) (xs : List A)
      → ((x y : A) → R x y → R (f x) y)
      → ((x y : A) → R x y → R x (f y))
      → Pairwise R xs
      → Pairwise R (update p f xs)
  Pairwise-update R p f [] left right pw = tt
  Pairwise-update R p f (x ∷ xs) left right pw = (
    if_lem (λ z. All (R z) (update p f xs)) (p x) (f x) x
        (λ _. All-imp _ (λ y h. left x y h) (All-update_right R p f x xs (right x) pw.0))
        (λ _. All-update_right R p f x xs (right x) pw.0),
    Pairwise-update R p f xs left right pw.1,
  )

  -- The rows keep a column that the update does not write, so it stays free of repetitions.
  pub Distinct-update :
      {K : Type 0} (key : A → K) (p : A → Bool) (f : A → A) (xs : List A)
      → ((x : A) → key (f x) ≡ key x)
      → Pairwise (λ x y. key x ≢ key y) xs
      → Pairwise (λ x y. key x ≢ key y) (update p f xs)
  Distinct-update key p f xs same =
      Pairwise-update (λ x y. key x ≢ key y) p f xs (λ x y h e. h (sym (same x) ∙ e))
        (λ x y h e. h (e ∙ same y))

  any-update_if : (q : A → Bool) (b : Bool) (x y : A) → q x ≡ q y → q (if b then x else y) ≡ q y
  any-update_if q true x y h = h
  any-update_if q false x y h = refl

  pub any-update :
      (q p : A → Bool) (f : A → A) (xs : List A)
      → ((x : A) → q (f x) ≡ q x)
      → any q (update p f xs) ≡ any q xs
  any-update q p f [] same = refl
  any-update q p f (x ∷ xs) same =
      rw (any-update_if q (p x) (f x) x (same x), any-update q p f xs same)
