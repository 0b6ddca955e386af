-- ===== src/Service/StreamKeys/Created.antt =====
-- A new stream key (`Create` of internal/service/streamkey.go) and its first use
-- (`Authenticate` of internal/service/auth.go).
use mathlib.Core.Bool.{false≢true}
use mathlib.Core.List.{Memᴰ}
use Prim.Native.String.{◌++◌}
use Prim.Native.String.append
use rescuestream_api.Prelude.{
  ◌≡◌, ◌≢◌, refl, sym, ap, ◌∙◌, subst, ℕ, suc, String, Bool, true, false, not, ◌&&◌, List, ◌∷◌,
  length, ◌==◌, ==_iff, str_eq, arith, inl, inr, Bool-cases, any, All-imp, any_of_All,
}
use rescuestream_api.Domain.{Uuid, Time, nil_uuid, StreamKey, is_past}
use rescuestream_api.Errors.{ok, wrap, lift}
use rescuestream_api.Store.{to_column_opt, Tables, StreamRow, accept, insert_key, fits, characters}
use rescuestream_api.Store.Columns.{varchar-fits}
use rescuestream_api.Store.Invariant.{IsConsistent, has_key}
use rescuestream_api.Env.{Env}
use rescuestream_api.Env.Healthy.{
  Gives, run_ok, handle_ok, bind_Gives, pure-Gives, pure_after, answered,
}
use rescuestream_api.Database.StreamKeyRepo
use rescuestream_api.Database.StreamRepo.{is_active_of_key}
use rescuestream_api.Service.Auth.{AuthRequest, shown_key, authenticate}
use rescuestream_api.Service.Auth.Access.{
  is_allowed, Usable, is_valid_iff, authenticate_allowed_iff,
}
use rescuestream_api.Service.StreamKeys.{
  CreateRequest, encode_to_string, generate_stream_key, new_key, create,
}
use rescuestream_api.Service.StreamKeys.KeyLength.{fits-encode_to_string}
use rescuestream_api.Consistency.Requests.{create_key-Keeps}
use rescuestream_api.Consistency.Rules.{consistency_rules}

-- The value that the bytes give.
abbrev pub value_of : List ℕ → String
value_of bytes = "sk_" ++ encode_to_string bytes

suc≢zero : {n : ℕ} → ¬ (suc n ≡ 0)
suc≢zero h = omega arith

value_of-nonempty : (bytes : List ℕ) → value_of bytes ≢ ""
value_of-nonempty bytes h = absurd (
    suc≢zero
      (sym (ap characters (append.cons "s" "k_" (encode_to_string bytes))) ∙ ap characters h))

abbrev with_key : StreamKey → Tables → Tables
with_key k t = record t { stream_keys = k ∷ t.stream_keys }

accept_all :
    (a b c d : Bool) {t : Tables}
    → a ≡ false
    → b ≡ false
    → c ≡ true
    → d ≡ true
    → accept (not a && not b && c && d) t ≡ ok (1, t)
accept_all a b c d p q r s = ground arith

with_id_lem : (spare : Uuid) (k : StreamKey) → k.id ≢ nil_uuid → StreamKeyRepo.with_id spare k ≡ k
with_id_lem spare k set = elim (Bool-cases (k.id == nil_uuid)) [
  | inl nil ↦ absurd (set ((==_iff k.id nil_uuid).0 nil))
  | inr other ↦ rw other refl
]

-- In consistent tables an ID that no key has is the key of no stream.
unused_id :
    (id : Uuid) (t : Tables)
    → IsConsistent t
    → any (λ k. k.id == id) t.stream_keys ≡ false
    → any (is_active_of_key id) t.streams ≡ false
unused_id id t c unknown =
    any_of_All (is_active_of_key id) t.streams
      (All-imp t.streams (λ s owned. no_stream s owned) c.streams.owned)
  where
    no_stream : (s : StreamRow) → has_key t.stream_keys s ≡ true → is_active_of_key id s ≡ false
    no_stream s owned = elim (Bool-cases (s.stream_key_id == id)) [
      | inl hit ↦ absurd (
          false≢true (
            sym unknown
            ∙ ap (λ i. any (λ k. k.id == i) t.stream_keys) (sym ((==_iff s.stream_key_id id).0 hit))
            ∙ owned))
      | inr miss ↦ ground arith
    ]

-- A new key can be used until it expires.
new_key-Usable :
    (fresh : Uuid) (now later : Time) (bytes : List ℕ) (req : CreateRequest) (t : Tables)
    → IsConsistent t
    → any (λ k. k.id == fresh) t.stream_keys ≡ false
    → is_past later (to_column_opt req.expires_at) ≡ false
    → let k = StreamKeyRepo.timed_row (new_key fresh now (value_of bytes) req) in
      Usable later (with_key k t) k.key_value
new_key-Usable fresh now later bytes req t c new_id alive = record {
  key = StreamKeyRepo.timed_row (new_key fresh now (value_of bytes) req);
  stored = Memᴰ.head refl;
  shown = refl;
  valid =
      (is_valid_iff later (StreamKeyRepo.timed_row (new_key fresh now (value_of bytes) req))).1
        (refl, alive);
  unused = unused_id fresh t c new_id;
}

module _ (e : Env) where
  open e use {World, tables, healthy}

  -- While the database answers, a key whose ID and value are new is stored.
  create-Gives :
      (fresh spare : Uuid) (now : Time) (bytes : List ℕ) (req : CreateRequest) (w : World)
      → healthy w ≡ true
      → fresh ≢ nil_uuid
      → any (λ k. k.id == fresh) (tables w).stream_keys ≡ false
      → any (λ k. str_eq k.key_value (value_of bytes)) (tables w).stream_keys ≡ false
      → any (λ b. b.id == req.broadcaster_id) (tables w).broadcasters ≡ true
      → fits 64 (value_of bytes) ≡ true
      → let k = new_key fresh now (value_of bytes) req in
        Gives e
          (create e fresh spare now (ok bytes) req)
          w
          (ok k)
          (with_key (StreamKeyRepo.timed_row k) (tables w))
  unfolding create StreamKeyRepo.create generate_stream_key insert_key
  create-Gives fresh spare now bytes req w up set new_id new_value owned short =
      let k = new_key fresh now (value_of bytes) req in
      let same = with_id_lem spare k set in
      let made =
        handle_ok e ok (wrap "failed to generate stream key") (lift (ok (value_of bytes))) w
          (pure-Gives e w up (value_of bytes)) in
      let stored = handle_ok e ok (wrap "failed to create stream key") _ _ (
        run_ok e (insert_key _) _ made.up (
          ap (insert_key _) made.left
          ∙ ap (λ j. insert_key (StreamKeyRepo.new_row j) (tables w)) same
          ∙ ap (λ v. insert_key (record (StreamKeyRepo.timed_row k) { key_value = v }) (tables w))
              (varchar-fits 64 (value_of bytes) short)
          ∙ accept_all (any (λ j. j.id == fresh) (tables w).stream_keys)
              (any (λ j. str_eq j.key_value (value_of bytes)) (tables w).stream_keys)
              (any (λ b. b.id == req.broadcaster_id) (tables w).broadcasters)
              (fits 64 (value_of bytes)) new_id new_value owned short)) in
      bind_Gives e _ _ w made (
        bind_Gives e _ _ _ stored
          (answered e (pure_after e (StreamKeyRepo.with_id spare k) stored) (ap ok same)))

  -- While the database answers and is consistent, a key that is created for a stored broadcaster,
  -- with an ID and a value of 32 random bytes that no key has, is returned with its value;
  -- and a publish request that shows this value is then let in, unless the expiry, to
  -- the microsecond, has passed.
  pub create_then_authenticate :
      (fresh spare : Uuid) (now : Time) (bytes : List ℕ) (req : CreateRequest) (w : World)
      → healthy w ≡ true
      → IsConsistent (tables w)
      → fresh ≢ nil_uuid
      → any (λ k. k.id == fresh) (tables w).stream_keys ≡ false
      → any (λ k. str_eq k.key_value (value_of bytes)) (tables w).stream_keys ≡ false
      → any (λ b. b.id == req.broadcaster_id) (tables w).broadcasters ≡ true
      → length bytes ≡ 32
      → let (r, w') = create e fresh spare now (ok bytes) req w in
        (k : StreamKey) × (r ≡ ok k)
        × (k.key_value ≡ value_of bytes)
        × ((later db_later : Time) (login : AuthRequest)
            → login.action ≡ "publish"
            → shown_key login ≡ k.key_value
            → is_past later (to_column_opt req.expires_at) ≡ false
            → is_allowed (authenticate e later db_later login w').0 ≡ true)
  create_then_authenticate fresh spare now bytes req w up c set new_id new_value owned short =
      let k = new_key fresh now (value_of bytes) req in
      let g =
        create-Gives fresh spare now bytes req w up set new_id new_value owned
          (fits-encode_to_string bytes short) in
      let c' =
        create_key-Keeps e IsConsistent consistency_rules fresh spare now (ok bytes) req w c in
      (
        k,
        g.result,
        refl,
        λ later db_later login publish shows alive.
            (authenticate_allowed_iff e later db_later login _ publish
                (λ nothing. value_of-nonempty bytes (sym shows ∙ nothing))).1
              g.up c'
              (subst (Usable later (tables _)) (sym shows) (
                subst (λ t. Usable later t k.key_value) (sym g.left)
                  (new_key-Usable fresh now later bytes req (tables w) c new_id alive))),
      )
