-- ===== src/Service/Broadcasters/Cascade.antt =====
-- What the deletion of a broadcaster removes (`Delete` of internal/service/broadcaster.go).
use mathlib.Core.Bool.{false≢true}
use mathlib.Core.List.{Memᴰ}
use rescuestream_api.Prelude.{
  ◌≡◌, ◌≢◌, ◌↔◌, refl, sym, ◌∙◌, subst, ℕ, Bool, true, false, not, ◌&&◌, ◌==◌, ==_iff, arith, inl,
  inr, Bool-cases, Mem-select, All-Memᴰ, All-of_any, any, select, if◌then◌else◌, List, [], ◌∷◌,
}
use rescuestream_api.Domain.{Uuid, StreamKey}
use rescuestream_api.Errors.{domain, not_found, ok, pure, fail}
use rescuestream_api.Store.{BroadcasterRow, StreamRow, Tables, delete_broadcaster, is_key_of}
use rescuestream_api.Env.{Env}
use rescuestream_api.Env.Rules.{ok≢err, bind_rule, run-eq-ok}
use rescuestream_api.Database.BroadcasterRepo
use rescuestream_api.Service.Broadcasters.{delete}
use rescuestream_api.Consistency.Base.{ok_pair}

-- A key of the broadcaster is the key of the stream.
abbrev pub Belongs : Uuid → Tables → StreamRow → Type 0
Belongs id t s =
    (k : StreamKey) × Memᴰ k t.stream_keys × ((k.broadcaster_id ≡ id) × (k.id ≡ s.stream_key_id))

-- The rows left are those that are neither the broadcaster's row nor a key of it nor a stream of
-- such a key.
pub record Cascaded (id : Uuid) (t t' : Tables) : Type 0 where
  pub broadcasters :
      (b : BroadcasterRow) → Memᴰ b t'.broadcasters ↔ (Memᴰ b t.broadcasters × (b.id ≢ id))
  pub keys :
      (k : StreamKey) → Memᴰ k t'.stream_keys ↔ (Memᴰ k t.stream_keys × (k.broadcaster_id ≢ id))
  pub streams : (s : StreamRow) → Memᴰ s t'.streams ↔ (Memᴰ s t.streams × ¬ Belongs id t s)

-- A test that holds exactly where `P` fails.
select-not :
    {A : Type 0} (P : A → Type 0) (p : A → Bool) (xs : List A) (x : A)
    → ((p x ≡ true) ↔ P x)
    → Memᴰ x (select (λ y. not (p y)) xs) ↔ (Memᴰ x xs × ¬ P x)
select-not P p xs x iff = (
  λ m.
      let (there, hit) = (Mem-select (λ y. not (p y)) xs).0 m in
      (there, λ h. absurd (not_both (p x) (iff.1 h) hit)),
  λ (there, none_holds).
      (Mem-select (λ y. not (p y)) xs).1 (there, not_true (p x) (λ h. none_holds (iff.0 h))),
)
  where
    not_both : (b : Bool) → b ≡ true → ¬ (not b ≡ true)
    not_both b h h' = ground arith

    not_true : (b : Bool) → ¬ (b ≡ true) → not b ≡ true
    not_true true h = absurd (h refl)
    not_true false h = refl

any_iff :
    {A : Type 0} (P : A → Type 0) (p : A → Bool) (xs : List A)
    → ((x : A) → (p x ≡ true) ↔ P x)
    → (any p xs ≡ true) ↔ ((x : A) × Memᴰ x xs × P x)
any_iff {A} P p xs iff = (find xs, there xs)
  where
    find : (ys : List A) → any p ys ≡ true → (x : A) × Memᴰ x ys × P x
    find [] h = cc
    find (y ∷ ys) h = elim (Bool-cases (p y)) [
      | inl hit ↦ (y, Memᴰ.head refl, (iff y).0 hit)
      | inr miss ↦ let (x, m, px) = find ys (rw miss at h) in (x, Memᴰ.tail m, px)
    ]

    there : (ys : List A) → (x : A) × Memᴰ x ys × P x → any p ys ≡ true
    there ys (x, m, px) = elim (Bool-cases (any p ys)) [
      | inl hit ↦ hit
      | inr miss ↦ absurd (false≢true (sym (All-Memᴰ _ ys (All-of_any p ys miss) m) ∙ (iff x).1 px))
    ]

is_key_of_iff :
    (id : Uuid) (t : Tables) (s : StreamRow)
    → (is_key_of t.stream_keys id s.stream_key_id ≡ true) ↔ Belongs id t s
is_key_of_iff id t s =
    any_iff (λ k. (k.broadcaster_id ≡ id) × (k.id ≡ s.stream_key_id))
      (λ k. k.broadcaster_id == id && k.id == s.stream_key_id) t.stream_keys
      (λ k. (λ h. ground arith, λ h. ground arith))

pub delete_broadcaster-Cascaded :
    (id : Uuid) (t : Tables) (n : ℕ) (t' : Tables)
    → delete_broadcaster id t ≡ ok (n, t')
    → Cascaded id t t'
unfolding delete_broadcaster
delete_broadcaster-Cascaded id t n t' h = subst (Cascaded id t) (ok_pair h).1 (record {
  broadcasters =
      λ b. select-not (λ c. c.id ≡ id) (λ c. c.id == id) t.broadcasters b (==_iff b.id id);
  keys = λ k.
      select-not (λ j. j.broadcaster_id ≡ id) (λ j. j.broadcaster_id == id) t.stream_keys k
        (==_iff k.broadcaster_id id);
  streams = λ s.
      select-not (Belongs id t) (λ r. is_key_of t.stream_keys id r.stream_key_id) t.streams s
        (is_key_of_iff id t s);
})

module _ (e : Env) (id : Uuid) where
  open e use {World, tables}

  affected-same :
      (n : ℕ) (w : World) {a : Unit {0}}
      → (BroadcasterRepo.affected n w).0 ≡ ok a
      → (BroadcasterRepo.affected n w).1 ≡ w
  affected-same n w h = by_test (n == 0)
    where
      by_test : (b : Bool) → ((if b then fail (domain not_found) else pure tt) w).1 ≡ w
      by_test true = refl
      by_test false = refl

  -- When the deletion of a broadcaster has succeeded, whatever failed on the way, what is left is
  -- every other broadcaster, every key of another broadcaster, and every stream that has no key of
  -- the deleted one.
  pub delete-Cascaded :
      (w : World) → (delete e id w).0 ≡ ok tt → Cascaded id (tables w) (tables (delete e id w).1)
  unfolding delete BroadcasterRepo.delete
  delete-Cascaded w =
      bind_rule (λ r. r.0 ≡ ok tt → Cascaded id (tables w) (tables r.1)) _ _ w
        (λ n h done.
          subst (λ v. Cascaded id (tables w) (tables v)) (sym (affected-same n _ done))
            (delete_broadcaster-Cascaded id (tables w) n _ (run-eq-ok e _ w _ h)))
        (λ x _ h. absurd (ok≢err (sym h)))
