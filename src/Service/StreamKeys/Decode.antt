-- ===== src/Service/StreamKeys/Decode.antt =====
-- Base64url read back: what a value of `generateStreamKey` (internal/service/streamkey.go) tells
-- about the random bytes.
use Prim.Native.Char.{Char, code}
use Prim.Native.String.{◌++◌}
use Prim.Native.String.append
use rescuestream_api.Prelude.{
  ◌≡◌, refl, sym, ap, subst, ◌∙◌, ℕ, zero, suc, ◌+◌, ◌*◌, ◌/◌, ◌%◌, ◌<◌, String, Bool, true, ◌&&◌,
  List, [], ◌∷◌, All, ◌==◌, ==_iff, arith, if◌then◌else◌, Bool-cases, inl, inr,
}
use rescuestream_api.Errors.{ok}
use rescuestream_api.Consistency.Base.{and-eq-true}
use rescuestream_api.Service.StreamKeys.{generate_stream_key}
use rescuestream_api.Service.StreamKeys.Base64.{alphabet, digit, sextets, spell, encode_to_string}

abbrev pub AreBytes : List ℕ → Type 0
AreBytes = All (λ b. b < 256)

-- The bytes of groups of six bits.
bytes_of : List ℕ → List ℕ
bytes_of [] = []
bytes_of (x ∷ []) = []
bytes_of (x ∷ y ∷ []) = (x * 4 + y / 16) ∷ []
bytes_of (x ∷ y ∷ z ∷ []) = (x * 4 + y / 16) ∷ (y % 16 * 16 + z / 4) ∷ []
bytes_of (x ∷ y ∷ z ∷ u ∷ rest) =
    (x * 4 + y / 16) ∷ (y % 16 * 16 + z / 4) ∷ (z % 4 * 64 + u) ∷ bytes_of rest

first_byte : (a b : ℕ) → b < 256 → a / 4 * 4 + (a % 4 * 16 + b / 16) / 16 ≡ a
first_byte a b h = omega arith

second_byte :
    (a b c : ℕ)
    → b < 256
    → c < 256
    → (a % 4 * 16 + b / 16) % 16 * 16 + (b % 16 * 4 + c / 64) / 4 ≡ b
second_byte a b c h h' = omega arith

third_byte : (b c : ℕ) → c < 256 → (b % 16 * 4 + c / 64) % 4 * 64 + c % 64 ≡ c
third_byte b c h = omega arith

bytes_of-sextets : (bytes : List ℕ) → AreBytes bytes → bytes_of (sextets bytes) ≡ bytes
unfolding sextets bytes_of
bytes_of-sextets [] h = refl
bytes_of-sextets (a ∷ []) h =
    let one : a / 4 * 4 + a % 4 * 16 / 16 ≡ a = omega arith in ap (λ x. x ∷ []) one
bytes_of-sextets (a ∷ b ∷ []) h =
    let one = first_byte a b h.1.0 in
    let two : (a % 4 * 16 + b / 16) % 16 * 16 + b % 16 * 4 / 4 ≡ b =
      let small = h.1.0 in omega arith in
    rw one (rw two refl)
bytes_of-sextets (a ∷ b ∷ c ∷ rest) h =
    let later = bytes_of-sextets rest h.1.1.1 in
    rw (first_byte a b h.1.0)
      (rw (second_byte a b c h.1.0 h.1.1.0) (rw (third_byte b c h.1.1.0) (rw later refl)))

-- Six bits each.
sextets-small : (bytes : List ℕ) → AreBytes bytes → All (λ n. n < 64) (sextets bytes)
unfolding sextets
sextets-small [] h = tt
sextets-small (a ∷ []) h = let small = h.0 in (omega arith, (omega arith, tt))
sextets-small (a ∷ b ∷ []) h =
    let small_a = h.0 in let small_b = h.1.0 in (omega arith, (omega arith, (omega arith, tt)))
sextets-small (a ∷ b ∷ c ∷ rest) h =
    let small_a = h.0 in
    let small_b = h.1.0 in
    let small_c = h.1.1.0 in
    (omega arith, (omega arith, (omega arith, (omega arith, sextets-small rest h.1.1.1))))

-- The place of a character in a text.
place_in : String → ℕ → ℕ
place_in String.[] k = 0
place_in (String.◌∷◌ c s) k = let rest = place_in s k in if code c == k then 0 else suc rest

value_of : Char → ℕ
value_of c = place_in alphabet (code c)

all_below : ℕ → (ℕ → Bool) → Bool
all_below zero p = true
all_below (suc n) p = p n && all_below n p

below_all : (n : ℕ) (p : ℕ → Bool) (k : ℕ) → all_below n p ≡ true → k < n → p k ≡ true
unfolding all_below
below_all zero p k h small = let no : ⊥ = omega arith in absurd no
below_all (suc n) p k h small =
    let (here, below) = and-eq-true (p n) (all_below n p) h in
    elim (Bool-cases (k == n)) [
      | inl same ↦ subst (λ m. p m ≡ true) (sym ((==_iff k n).0 same)) here
      | inr other ↦ below_all n p k below (ground arith)
    ]

-- Every digit is read back.
digits_checked : all_below 64 (λ n. value_of (digit n) == n) ≡ true
unfolding all_below value_of place_in
digits_checked = refl

value_of-digit : (n : ℕ) → n < 64 → value_of (digit n) ≡ n
value_of-digit n small =
    (==_iff (value_of (digit n)) n).0
      (below_all 64 (λ m. value_of (digit m) == m) n digits_checked small)

read : String → List ℕ
read String.[] = []
read (String.◌∷◌ c s) = value_of c ∷ read s

read-spell : (ns : List ℕ) → All (λ n. n < 64) ns → read (spell ns) ≡ ns
unfolding read spell
read-spell [] h = refl
read-spell (n ∷ ns) h = rw (value_of-digit n h.0) (rw (read-spell ns h.1) refl)

-- A value without its first three characters.
after_prefix : String → String
after_prefix String.[] = ""
after_prefix (String.◌∷◌ c String.[]) = ""
after_prefix (String.◌∷◌ c (String.◌∷◌ d String.[])) = ""
after_prefix (String.◌∷◌ c (String.◌∷◌ d (String.◌∷◌ f s))) = s

sk_spelled : (s : String) → ("sk_" ++ s) ≡ String.◌∷◌ "s" (String.◌∷◌ "k" (String.◌∷◌ "_" s))
sk_spelled s =
    append.cons "s" "k_" s
    ∙ ap (String.◌∷◌ "s") (append.cons "k" "_" s)
    ∙ ap (λ t. String.◌∷◌ "s" (String.◌∷◌ "k" t)) (append.cons "_" "" s)
    ∙ ap (λ t. String.◌∷◌ "s" (String.◌∷◌ "k" (String.◌∷◌ "_" t))) (append.nil s)

after_prefix-sk : (s : String) → after_prefix ("sk_" ++ s) ≡ s
unfolding after_prefix
after_prefix-sk s = ap after_prefix (sk_spelled s)

-- The random bytes of a key value.
random_bytes : String → List ℕ
random_bytes value = bytes_of (read (after_prefix value))

read_back :
    (bytes : List ℕ) → AreBytes bytes → random_bytes ("sk_" ++ encode_to_string bytes) ≡ bytes
unfolding random_bytes encode_to_string
read_back bytes small =
    ap (λ s. bytes_of (read s)) (after_prefix-sk (spell (sextets bytes)))
    ∙ ap bytes_of (read-spell (sextets bytes) (sextets-small bytes small))
    ∙ bytes_of-sextets bytes small

-- Two answers of the random generator that give the same key value are the same bytes, however many
-- there are.
pub generate_stream_key-injective :
    (xs ys : List ℕ)
    → AreBytes xs
    → AreBytes ys
    → generate_stream_key (ok xs) ≡ generate_stream_key (ok ys)
    → xs ≡ ys
unfolding generate_stream_key
generate_stream_key-injective xs ys small_x small_y same =
    let values : ("sk_" ++ encode_to_string xs) ≡ ("sk_" ++ encode_to_string ys) = cc in
    sym (read_back xs small_x) ∙ ap random_bytes values ∙ read_back ys small_y
