-- ===== src/Handler/Signature/Signed.antt =====
-- Which requests pass the middleware of internal/handler/middleware.go.
use mathlib.Core.Bool.{false≢true}
use Prim.Native.String.{◌++◌}
use rescuestream_api.Prelude.{
  ℤ, pos, negsuc, suc, ◌≡◌, ◌≢◌, ◌↔◌, refl, sym, ap, ◌∙◌, subst, ℕ, ◌+◌, ◌*◌, ◌≤◌, String, Bool,
  true, false, ◌||◌, Option, none, some, str_eq, eq_iff, inl, inr, Bool-cases, arith, if◌then◌else◌,
}
use rescuestream_api.Errors.{Result, ok, err}
use rescuestream_api.Handler.KeyStore.{KeyStore}
use rescuestream_api.Handler.Signature.{
  SignedRequest, Verdict, forwarded, unauthorized_because, in_window, string_to_sign,
  check_signature, check_secret, check_timestamp, authenticate,
}

ne-str_eq : (s : String) → str_eq s "" ≡ false → s ≢ ""
ne-str_eq s h e = false≢true (sym h ∙ (eq_iff s "").1 e)

str_eq-ne : (s : String) → s ≢ "" → str_eq s "" ≡ false
str_eq-ne s ne = elim (Bool-cases (str_eq s "")) [
  | inl hit ↦ absurd (ne ((eq_iff s "").0 hit))
  | inr miss ↦ miss
]

or-eq-false : (a b c : Bool) → (a || b || c) ≡ false → (a ≡ false) × (b ≡ false) × (c ≡ false)
or-eq-false a b c h = ground arith

or_false : (a b c : Bool) → a ≡ false → b ≡ false → c ≡ false → (a || b || c) ≡ false
or_false a b c p q r = ground arith

taken : {A : Type 0} (b : Bool) (v w : A) → b ≡ true → (if b then v else w) ≡ v
taken true v w h = refl
taken false v w h = cc

not_taken : {A : Type 0} (b : Bool) (v w : A) → b ≡ false → (if b then v else w) ≡ w
not_taken true v w h = cc
not_taken false v w h = refl

same_some : {A : Type 0} {a b : A} → some a ≡ some b → a ≡ b
same_some h = cc

-- The timestamp, in seconds since 1970, is at most 300 seconds before or after `now`, which is in
-- nanoseconds since 1970.
abbrev pub Recent : ℕ → ℤ → Type 0
Recent now (pos s) =
    (s * 1000000000 ≤ now + 300 * 1000000000) × (now ≤ s * 1000000000 + 300 * 1000000000)
Recent now (negsuc n) = now + suc n * 1000000000 ≤ 300 * 1000000000

in_window_iff : (now : ℕ) (t : ℤ) → (in_window now t ≡ true) ↔ Recent now t
unfolding in_window
in_window_iff now (pos s) = (λ h. (ground arith, ground arith), λ h. ground arith)
in_window_iff now (negsuc n) = (λ h. ground arith, λ h. ground arith)

-- Two times in the window of one timestamp are at most twice 300 seconds apart.
Recent-close :
    (now later : ℕ) (t : ℤ) → Recent now t → Recent later t → later ≤ now + 600 * 1000000000
Recent-close now later (pos n) h h' = omega arith
Recent-close now later (negsuc n) h h' = omega arith

module _ (parse_int : String → Option ℤ) (format_int : ℤ → String) (sign : String → String → String)
    (get_secret : KeyStore) where
  -- A request with a recent timestamp and the signature, under the secret of its key, of its method,
  -- path, timestamp and body, a line each.
  pub record Signed (now : ℕ) (r : SignedRequest) : Type 0 where
    pub has_key : r.api_key ≢ ""
    pub has_signature : r.signature ≢ ""
    pub has_timestamp : r.timestamp ≢ ""
    pub timestamp : ℤ
    pub parsed : parse_int r.timestamp ≡ some timestamp
    pub fresh : Recent now timestamp
    pub secret : String
    pub known : get_secret r.api_key ≡ ok secret
    pub body : String
    pub read : r.body ≡ ok body
    pub matches :
        r.signature
        ≡ sign secret (r.method ++ "\n" ++ r.path ++ "\n" ++ format_int timestamp ++ "\n" ++ body)

  choice :
      (b : Bool) (v : Verdict) (s : String) {k : String}
      → (if b then v else unauthorized_because s) ≡ forwarded k
      → (b ≡ true) × (v ≡ forwarded k)
  choice true v s h = (refl, h)
  choice false v s h = cc

  rejection :
      (b : Bool) (v : Verdict) (s : String) {k : String}
      → (if b then unauthorized_because s else v) ≡ forwarded k
      → (b ≡ false) × (v ≡ forwarded k)
  rejection true v s h = cc
  rejection false v s h = (refl, h)

  check_signature-forwarded :
      (r : SignedRequest) (t : ℤ) (secret : String) (body : Result String) {k : String}
      → check_signature parse_int format_int sign get_secret r t secret body ≡ forwarded k
      → (b : String) × (body ≡ ok b)
        × (r.signature ≡ sign secret (string_to_sign parse_int format_int sign get_secret r t b))
        × (r.api_key ≡ k)
  unfolding check_signature
  check_signature-forwarded r t secret (err x) h = cc
  check_signature-forwarded r t secret (ok b) h =
      let (same, passed) = choice _ _ _ h in (b, refl, (eq_iff _ _).0 same, cc)

  check_secret-forwarded :
      (r : SignedRequest) (t : ℤ) (secret : Result String) {k : String}
      → check_secret parse_int format_int sign get_secret r t secret ≡ forwarded k
      → (s : String) × (secret ≡ ok s)
        × (check_signature parse_int format_int sign get_secret r t s r.body ≡ forwarded k)
  unfolding check_secret
  check_secret-forwarded r t (err x) h = cc
  check_secret-forwarded r t (ok s) h = (s, refl, h)

  check_timestamp-forwarded :
      (now : ℕ) (r : SignedRequest) (p : Option ℤ) {k : String}
      → check_timestamp parse_int format_int sign get_secret now r p ≡ forwarded k
      → (t : ℤ) × (p ≡ some t)
        × (in_window now t ≡ true)
        × (check_secret parse_int format_int sign get_secret r t (get_secret r.api_key)
            ≡ forwarded k)
  unfolding check_timestamp
  check_timestamp-forwarded now r none h = cc
  check_timestamp-forwarded now r (some t) h =
      let (fresh, rest) = choice _ _ _ h in (t, refl, fresh, rest)

  authenticate-forwarded :
      (now : ℕ) (r : SignedRequest) {k : String}
      → authenticate parse_int format_int sign get_secret now r ≡ forwarded k
      → (r.api_key ≢ "")
        × (r.signature ≢ "")
        × (r.timestamp ≢ "")
        × (check_timestamp parse_int format_int sign get_secret now r (parse_int r.timestamp)
            ≡ forwarded k)
  unfolding authenticate
  authenticate-forwarded now r h =
      let (present, rest) = rejection _ _ _ h in
      let (a, b, c) = or-eq-false _ _ _ present in
      (ne-str_eq _ a, ne-str_eq _ b, ne-str_eq _ c, rest)

  forwarded-Signed :
      (now : ℕ) (r : SignedRequest) {k : String}
      → authenticate parse_int format_int sign get_secret now r ≡ forwarded k
      → (r.api_key ≡ k) × Signed now r
  forwarded-Signed now r h =
      let (a, b, c, timed) = authenticate-forwarded now r h in
      let (t, parsed, fresh, keyed) = check_timestamp-forwarded now r _ timed in
      let (s, known, signed) = check_secret-forwarded r t _ keyed in
      let (body, read, same, key) = check_signature-forwarded r t s _ signed in
      (
        key,
        record {
          has_key = a;
          has_signature = b;
          has_timestamp = c;
          timestamp = t;
          parsed = parsed;
          fresh = (in_window_iff now t).0 fresh;
          secret = s;
          known = known;
          body = body;
          read = read;
          matches = same;
        },
      )

  Signed-forwarded :
      (now : ℕ) (r : SignedRequest)
      → Signed now r
      → authenticate parse_int format_int sign get_secret now r ≡ forwarded r.api_key
  unfolding authenticate check_timestamp check_secret check_signature
  Signed-forwarded now r s =
      not_taken _ _ _ (
        or_false _ _ _ (str_eq-ne _ s.has_key) (str_eq-ne _ s.has_signature)
          (str_eq-ne _ s.has_timestamp))
      ∙ ap (check_timestamp parse_int format_int sign get_secret now r) s.parsed
      ∙ taken _ _ _ ((in_window_iff now s.timestamp).1 s.fresh)
      ∙ ap (check_secret parse_int format_int sign get_secret r s.timestamp) s.known
      ∙ ap (check_signature parse_int format_int sign get_secret r s.timestamp s.secret) s.read
      ∙ taken _ _ _ ((eq_iff _ _).1 s.matches)

  -- A request is passed on, with its API key in the context, exactly if its three headers are
  -- there, its timestamp parses and is at most five minutes away, its key has a secret, its body can be read,
  -- and its signature is that of its method, path, timestamp and body under the secret; and if one
  -- request is passed on at two times, the later is at most ten minutes after the other.
  pub authenticate_forwarded_iff :
      (now : ℕ) (r : SignedRequest)
      → ((authenticate parse_int format_int sign get_secret now r ≡ forwarded r.api_key)
          ↔ Signed now r)
        × ((k : String)
            → authenticate parse_int format_int sign get_secret now r ≡ forwarded k
            → k ≡ r.api_key)
        × ((later : ℕ)
            → authenticate parse_int format_int sign get_secret now r ≡ forwarded r.api_key
            → authenticate parse_int format_int sign get_secret later r ≡ forwarded r.api_key
            → later ≤ now + 600 * 1000000000)
  authenticate_forwarded_iff now r = (
    (λ h. (forwarded-Signed now r h).1, Signed-forwarded now r),
    λ k h. sym (forwarded-Signed now r h).0,
    λ later h h'.
        let s = (forwarded-Signed now r h).1 in
        let s' = (forwarded-Signed later r h').1 in
        Recent-close now later s.timestamp s.fresh
          (subst (λ t. Recent later t) (same_some (sym s'.parsed ∙ s.parsed)) s'.fresh),
  )
