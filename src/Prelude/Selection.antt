-- ===== src/Prelude/Selection.antt =====
-- The rows that a test selects, the first of them, and rows that are the only ones with their value.
use mathlib.Core.Path.{◌≡◌, refl, sym, ap, subst, ◌∙◌}
use mathlib.Core.Logic.{◌≢◌, ◌↔◌, inl, inr}
use mathlib.Core.Bool.{Bool, true}
use mathlib.Core.List.{List, [], ◌∷◌, Memᴰ}
use mathlib.Core.Option.{Option, none, some}
use native.Mathlib.Omega.{arith}
use rescuestream_api.Prelude.Tests.{Bool-cases, is_some}
use rescuestream_api.Prelude.Lists.{any, select, All, Pairwise, head?}
use rescuestream_api.Prelude.Rows.{All-imp}

module _ {A : Type 0} where
  pub All-select :
      (P : A → Type 0) (p : A → Bool) (xs : List A)
      → All P xs
      → All (λ x. P x × (p x ≡ true)) (select p xs)
  All-select P p [] all = tt
  All-select P p (x ∷ xs) all = elim (Bool-cases (p x)) [
    | inl kept ↦ rw kept ((all.0, kept), All-select P p xs all.1)
    | inr dropped ↦ rw dropped (All-select P p xs all.1)
  ]

  pub Pairwise-select :
      (R : A → A → Type 0) (p : A → Bool) (xs : List A) → Pairwise R xs → Pairwise R (select p xs)
  Pairwise-select R p [] pw = tt
  Pairwise-select R p (x ∷ xs) pw = elim (Bool-cases (p x)) [
    | inl kept ↦
        rw kept (All-imp _ (λ y h. h.0) (All-select (R x) p xs pw.0), Pairwise-select R p xs pw.1)
    | inr dropped ↦ rw dropped (Pairwise-select R p xs pw.1)
  ]

  pub any-select :
      (q p : A → Bool) (xs : List A)
      → All (λ x. q x ≡ true → p x ≡ true) xs
      → any q xs ≡ true
      → any q (select p xs) ≡ true
  any-select q p [] keep h = cc
  any-select q p (x ∷ xs) keep h = elim (Bool-cases (q x)) [
    | inl hit ↦ rw (keep.0 hit, hit)
    | inr miss ↦ elim (Bool-cases (p x)) [
      | inl kept ↦ rw (kept, miss) (any-select q p xs keep.1 (rw miss at h))
      | inr dropped ↦ rw dropped (any-select q p xs keep.1 (rw miss at h))
    ]
  ]

  -- The first selected row is a row, and passes the test.
  pub head_select :
      (P : A → Type 0) (p : A → Bool) (xs : List A) {x : A}
      → head? (select p xs) ≡ some x
      → All P xs
      → P x × (p x ≡ true)
  head_select P p [] h all = cc
  head_select P p (y ∷ ys) {x} h all = elim (Bool-cases (p y)) [
    | inl kept ↦ let e : y ≡ x = ground arith in subst (λ z. P z × (p z ≡ true)) e (all.0, kept)
    | inr dropped ↦ head_select P p ys (ground arith) all.1
  ]

  pub any_of_head :
      (p : A → Bool) (xs : List A) (o : Option A) → head? (select p xs) ≡ o → any p xs ≡ is_some o
  any_of_head p [] none h = refl
  any_of_head p [] (some x) h = cc
  any_of_head p (y ∷ ys) o h = elim (Bool-cases (p y)) [
    | inl kept ↦ rw kept (ap is_some (rw kept at h))
    | inr dropped ↦ rw dropped (any_of_head p ys o (rw dropped at h))
  ]

  pub head_select-Mem :
      (p : A → Bool) (xs : List A) {x : A} → head? (select p xs) ≡ some x → Memᴰ x xs × (p x ≡ true)
  head_select-Mem p [] h = cc
  head_select-Mem p (y ∷ ys) {x} h = elim (Bool-cases (p y)) [
    | inl kept ↦ let e : x ≡ y = ground arith in (Memᴰ.head e, subst (λ z. p z ≡ true) (sym e) kept)
    | inr dropped ↦
        let (later, hit) = head_select-Mem p ys (rw dropped at h) in (Memᴰ.tail later, hit)
  ]

  -- A row that passes the test is found, or another one before it.
  pub head_select-some :
      (p : A → Bool) (xs : List A) → any p xs ≡ true → (x : A) × (head? (select p xs) ≡ some x)
  head_select-some p [] h = cc
  head_select-some p (y ∷ ys) h = elim (Bool-cases (p y)) [
    | inl kept ↦ (y, rw kept)
    | inr dropped ↦ rw dropped (head_select-some p ys (rw dropped at h))
  ]

  pub All-Memᴰ : (P : A → Type 0) {x : A} (xs : List A) → All P xs → Memᴰ x xs → P x
  All-Memᴰ P [] all m = elim m [ ]
  All-Memᴰ P (y ∷ ys) all (Memᴰ.head e) = subst P (sym e) all.0
  All-Memᴰ P (y ∷ ys) all (Memᴰ.tail m) = All-Memᴰ P ys all.1 m

  -- Where a column repeats no value, a row is the only one with its value.
  pub only_with_value :
      {K : Type 0} (key : A → K) (xs : List A) {x : A}
      → Pairwise (λ y z. key y ≢ key z) xs
      → Memᴰ x xs
      → All (λ y. key y ≡ key x → y ≡ x) xs
  only_with_value key [] d m = tt
  only_with_value key (y ∷ ys) {x} d (Memᴰ.head e) =
      (λ _. sym e, All-imp ys (λ z ne same. absurd (ne (sym (same ∙ ap key e)))) d.0)
  only_with_value key (y ∷ ys) {x} d (Memᴰ.tail m) =
      (λ same. absurd (All-Memᴰ (λ z. key y ≢ key z) ys d.0 m same), only_with_value key ys d.1 m)

  -- The selected rows are the rows that pass the test.
  pub Mem-select :
      (p : A → Bool) (xs : List A) {x : A} → Memᴰ x (select p xs) ↔ (Memᴰ x xs × (p x ≡ true))
  Mem-select p xs = (chosen xs, keep xs)
    where
      chosen : (ys : List A) {x : A} → Memᴰ x (select p ys) → Memᴰ x ys × (p x ≡ true)
      chosen [] m = elim m [ ]
      chosen (y ∷ ys) {x} m = elim (Bool-cases (p y)) [
        | inl kept ↦
            let m' : Memᴰ x (y ∷ select p ys) = rw kept at m in
            elim m' [
              | Memᴰ.head e ↦ (Memᴰ.head e, subst (λ z. p z ≡ true) (sym e) kept)
              | Memᴰ.tail later ↦ let (n, hit) = chosen ys later in (Memᴰ.tail n, hit)
            ]
        | inr dropped ↦ let (n, hit) = chosen ys (rw dropped at m) in (Memᴰ.tail n, hit)
      ]

      keep : (ys : List A) {x : A} → Memᴰ x ys × (p x ≡ true) → Memᴰ x (select p ys)
      keep [] (m, h) = elim m [ ]
      keep (y ∷ ys) {x} (Memᴰ.head e, h) =
          let kept : p y ≡ true = subst (λ z. p z ≡ true) e h in rw kept (Memᴰ.head e)
      keep (y ∷ ys) {x} (Memᴰ.tail later, h) = elim (Bool-cases (p y)) [
        | inl kept ↦ rw kept (Memᴰ.tail (keep ys (later, h)))
        | inr dropped ↦ rw dropped (keep ys (later, h))
      ]
