-- ===== src/Env/Memory.antt =====
-- An environment in memory that meets the interface: the tests run the program on it.
use rescuestream_api.Prelude.{
  String, ◌≡◌, refl, Bool, true, false, some, List, [], ◌∷◌, ◌≤◌, ltb, All, Pairwise, inl, inr,
  Bool-cases, arith, if◌then◌else◌, sym, subst,
}
use mathlib.Core.List.{Perm}
use mathlib.Core.List.Perm
use rescuestream_api.Domain.{Time}
use rescuestream_api.Errors.{external, Result, ok, err, Action}
use rescuestream_api.Store.{Tables, Stmt}
use rescuestream_api.Env.{Conn, Ran, Answers, Ended, Committed, Env}

pub record Memory : Type 0 where
  pub stored : Tables
  pub up : Bool
  pub rtmp_conns : List Conn
  pub rtsp_sessions : List Conn
  pub kicked : List String

abbrev pub answer : {A : Type 0} → Memory → Result (A × Tables) → Result A × Memory
answer m (ok (a, t)) = (ok a, record m { stored = t })
answer m (err e) = (err e, m)

abbrev pub run : {A : Type 0} → Stmt A → Action Memory A
run s m = if m.up then answer m (s m.stored) else (err (external "unreachable"), m)

abbrev pub finish : {A : Type 0} → Memory → Result A × Memory → Result A × Memory
finish m (ok a, m') = (ok a, m')
finish m (err e, m') = (err e, record m' { stored = m.stored })

abbrev pub begin_func : {A : Type 0} → Action Memory A → Action Memory A
begin_func f m = if m.up then finish m (f m) else (err (external "unreachable"), m)

abbrev pub ping : Action Memory (Unit {0})
ping m = (if m.up then ok tt else err (external "unreachable"), m)

abbrev pub kick : String → Action Memory (Unit {0})
kick id m = (ok tt, record m { kicked = id ∷ m.kicked })

answer-Ran :
    {A : Type 0} (s : Stmt A) (m : Memory) (r : Result (A × Tables))
    → s m.stored ≡ r
    → Ran s m.stored (answer m r).0 (answer m r).1.stored
answer-Ran s m (ok (a, t)) e = e
answer-Ran s m (err x) e = (refl, inl e)

pub run_lem : {A : Type 0} (s : Stmt A) (m : Memory) → Ran s m.stored (run s m).0 (run s m).1.stored
run_lem s m = answer_if-Ran m.up
  where
    answer_if-Ran :
        (b : Bool)
        → let r = if b then answer m (s m.stored) else (err (external "unreachable"), m) in
          Ran s m.stored r.0 r.1.stored
    answer_if-Ran true = answer-Ran s m (s m.stored) refl
    answer_if-Ran false = (refl, inr (refl, λ d. refl))

answer-Answers :
    {A : Type 0} (m : Memory) (r : Result (A × Tables))
    → m.up ≡ true
    → Answers (λ (w : Memory). w.stored) (λ (w : Memory). w.up) r m.stored (answer m r)
answer-Answers m (ok (a, t)) up = (refl, refl, up)
answer-Answers m (err e) up = (refl, refl, up)

pub run_healthy :
    {A : Type 0} (s : Stmt A) (m : Memory)
    → m.up ≡ true
    → Answers (λ (w : Memory). w.stored) (λ (w : Memory). w.up) (s m.stored) m.stored (run s m)
run_healthy s m up =
    let p = answer-Answers m (s m.stored) up in
    subst
      (λ (b : Bool).
        Answers (λ (w : Memory). w.stored) (λ (w : Memory). w.up) (s m.stored) m.stored
          (if b then answer m (s m.stored) else (err (external "unreachable"), m)))
      (sym up) p

finish-Committed :
    {A : Type 0} (f : Action Memory A) (m : Memory) (r : Result A × Memory)
    → f m ≡ r
    → Committed (λ (w : Memory). w.stored) (λ (w : Memory). w.up) f m.stored (finish m r)
finish-Committed f m (ok a, m') e = (m, m', refl, e, refl)
finish-Committed f m (err x, m') e = refl

pub begin_lem :
    {A : Type 0} (f : Action Memory A) (m : Memory)
    → Committed (λ (w : Memory). w.stored) (λ (w : Memory). w.up) f m.stored (begin_func f m)
begin_lem f m = finish_if-Committed m.up
  where
    finish_if-Committed :
        (b : Bool)
        → Committed
            (λ (w : Memory). w.stored)
            (λ (w : Memory). w.up)
            f
            m.stored
            (if b then finish m (f m) else (err (external "unreachable"), m))
    finish_if-Committed true = finish-Committed f m (f m) refl
    finish_if-Committed false = refl

finish-Ended :
    {A : Type 0} (m : Memory) (r : Result A × Memory)
    → r.1.up ≡ true
    → Ended (λ (w : Memory). w.stored) (λ (w : Memory). w.up) r m.stored (finish m r)
finish-Ended m (ok a, m') up = (refl, refl, up)
finish-Ended m (err e, m') up = (refl, refl, up)

pub begin_healthy :
    {A : Type 0} (f : Action Memory A) (m : Memory)
    → m.up ≡ true
    → (f m).1.up ≡ true
    → Ended (λ (w : Memory). w.stored) (λ (w : Memory). w.up) (f m) m.stored (begin_func f m)
begin_healthy f m up after =
    subst
      (λ (b : Bool).
        Ended (λ (w : Memory). w.stored) (λ (w : Memory). w.up) (f m) m.stored
          (if b then finish m (f m) else (err (external "unreachable"), m)))
      (sym up) (finish-Ended m (f m) after)

pub ping_healthy : (m : Memory) → m.up ≡ true → (ping m).0 ≡ ok tt
ping_healthy m up = rw up

-- Insertion sort, for ORDER BY.
abbrev pub place : {A : Type 0} → (A → Time) → A → List A → List A
place by a [] = a ∷ []
place by a (x ∷ xs) = let rest = place by a xs in if ltb (by a) (by x) then x ∷ rest else a ∷ x ∷ xs

abbrev pub order_desc : {A : Type 0} → (A → Time) → List A → List A
order_desc by [] = []
order_desc by (x ∷ xs) = place by x (order_desc by xs)

place-perm : {A : Type 0} (by : A → Time) (a : A) (xs : List A) → Perm (place by a xs) (a ∷ xs)
place-perm by a [] = Perm.refl (a ∷ [])
place-perm by a (x ∷ xs) = elim (Bool-cases (ltb (by a) (by x))) [
  | inl smaller ↦ rw smaller (Perm.trans (Perm.cons x (place-perm by a xs)) (Perm.swap a x xs))
  | inr larger ↦ rw larger (Perm.refl (a ∷ x ∷ xs))
]

pub order_perm : {A : Type 0} (by : A → Time) (xs : List A) → Perm (order_desc by xs) xs
order_perm by [] = Perm.refl []
order_perm by (x ∷ xs) =
    Perm.trans (place-perm by x (order_desc by xs)) (Perm.cons x (order_perm by xs))

All-le_trans :
    {A : Type 0} (by : A → Time) (n m : Time) (xs : List A)
    → m ≤ n
    → All (λ b. by b ≤ m) xs
    → All (λ b. by b ≤ n) xs
All-le_trans by n m [] h all = tt
All-le_trans by n m (x ∷ xs) h all = (omega arith, All-le_trans by n m xs h all.1)

place-All :
    {A : Type 0} (by : A → Time) (n : Time) (a : A) (xs : List A)
    → by a ≤ n
    → All (λ b. by b ≤ n) xs
    → All (λ b. by b ≤ n) (place by a xs)
place-All by n a [] h all = (h, tt)
place-All by n a (x ∷ xs) h all = ground (arith, place-All by n a xs h all.1)

place_sorted :
    {A : Type 0} (by : A → Time) (a : A) (xs : List A)
    → Pairwise (λ x y. by y ≤ by x) xs
    → Pairwise (λ x y. by y ≤ by x) (place by a xs)
place_sorted by a [] s = (tt, tt)
place_sorted by a (x ∷ xs) s = elim (Bool-cases (ltb (by a) (by x))) [
  | inl smaller ↦ rw smaller (place-All by (by x) a xs (ground arith) s.0, place_sorted by a xs s.1)
  | inr larger ↦ rw larger ((ground arith, All-le_trans by (by a) (by x) xs (ground arith) s.0), s)
]

pub order_sorted :
    {A : Type 0} (by : A → Time) (xs : List A) → Pairwise (λ x y. by y ≤ by x) (order_desc by xs)
order_sorted by [] = tt
order_sorted by (x ∷ xs) = place_sorted by x (order_desc by xs) (order_sorted by xs)

abbrev pub memory : Env
memory = record {
  World = Memory;
  tables = λ m. m.stored;
  healthy = λ m. m.up;
  run = run;
  order_desc = order_desc;
  begin_func = begin_func;
  ping = ping;
  rtmp_list = λ m. (ok (some (some m.rtmp_conns)), m);
  rtmp_kick = kick;
  rtsp_list = λ m. (ok (some (some m.rtsp_sessions)), m);
  rtsp_kick = kick;
  run_lem = run_lem;
  run_healthy = run_healthy;
  order_perm = order_perm;
  order_sorted = order_sorted;
  begin_lem = begin_lem;
  begin_healthy = λ f m up. (m, refl, up, begin_healthy f m up);
  ping_lem = λ m. (refl, refl);
  ping_healthy = ping_healthy;
  rtmp_list_lem = λ m. (refl, refl);
  rtmp_kick_lem = λ id m. (refl, refl);
  rtsp_list_lem = λ m. (refl, refl);
  rtsp_kick_lem = λ id m. (refl, refl);
}
