-- ===== src/Service/StreamKeys/KeyLength.antt =====
-- The length of a new key's value (`generateStreamKey` of internal/service/streamkey.go).
use Prim.Native.String.{◌++◌}
use Prim.Native.String.append
use Prim.Native.Char.{code}
use rescuestream_api.Prelude.{
  ◌≡◌, refl, zero, Bool, false, not, ◌&&◌, ◌||◌, ltb, ◌==◌, ap, ◌∙◌, ℕ, suc, ◌+◌, ◌*◌, ◌≤◌, String,
  true, List, [], ◌∷◌, length, arith,
}
use rescuestream_api.Errors.{ok}
use rescuestream_api.Store.{has_nul, characters, fits}
use rescuestream_api.Service.StreamKeys.{generate_stream_key}
use rescuestream_api.Service.StreamKeys.Base64.{alphabet, char_at, sextets, spell, encode_to_string}

length-sextets : (bytes : List ℕ) → 3 * length (sextets bytes) ≤ 4 * length bytes + 2
unfolding sextets
length-sextets [] = omega arith
length-sextets (a ∷ []) = omega arith
length-sextets (a ∷ b ∷ []) = omega arith
length-sextets (a ∷ b ∷ c ∷ rest) = let h = length-sextets rest in omega arith

characters-spell : (ns : List ℕ) → characters (spell ns) ≡ length ns
unfolding spell
characters-spell [] = refl
characters-spell (n ∷ ns) = ap suc (characters-spell ns)

characters-sk : (s : String) → characters ("sk_" ++ s) ≡ suc (suc (suc (characters s)))
characters-sk s =
    ap characters (append.cons "s" "k_" s)
    ∙ ap (λ t. suc (characters t)) (append.cons "k" "_" s)
    ∙ ap (λ t. suc (suc (characters t))) (append.cons "_" "" s)
    ∙ ap (λ t. suc (suc (suc (characters t)))) (append.nil s)

or-eq-false : (a b : Bool) → (a || b) ≡ false → (a ≡ false) × (b ≡ false)
or-eq-false a b h = ground arith

or_false : (a b : Bool) → a ≡ false → b ≡ false → (a || b) ≡ false
or_false a b p q = ground arith

-- A character of a text without U+0000, and the one that is taken beyond its end.
char_at-clean : (s : String) (n : ℕ) → has_nul s ≡ false → (code (char_at s n) == 0) ≡ false
char_at-clean String.[] n h = refl
char_at-clean (String.◌∷◌ c s) zero h = (or-eq-false _ _ h).0
char_at-clean (String.◌∷◌ c s) (suc n) h = char_at-clean s n (or-eq-false (code c == 0) _ h).1

has_nul-spell : (ns : List ℕ) → has_nul (spell ns) ≡ false
unfolding spell
has_nul-spell [] = refl
has_nul-spell (n ∷ ns) = or_false _ _ (char_at-clean alphabet n refl) (has_nul-spell ns)

has_nul-sk : (s : String) → has_nul ("sk_" ++ s) ≡ has_nul s
has_nul-sk s =
    ap has_nul (append.cons "s" "k_" s)
    ∙ ap has_nul (append.cons "k" "_" s)
    ∙ ap has_nul (append.cons "_" "" s)
    ∙ ap has_nul (append.nil s)

short_enough : (a : Bool) (n : ℕ) → a ≡ false → n ≤ 64 → (not a && not (ltb 64 n)) ≡ true
short_enough a n p q = ground arith

-- The value made of 32 bytes fits its column.
pub fits-encode_to_string :
    (bytes : List ℕ) → length bytes ≡ 32 → fits 64 ("sk_" ++ encode_to_string bytes) ≡ true
unfolding encode_to_string
fits-encode_to_string bytes h =
    let size = characters-sk (spell (sextets bytes)) in
    let spelled = characters-spell (sextets bytes) in
    let bound = length-sextets bytes in
    short_enough _ _ (has_nul-sk (spell (sextets bytes)) ∙ has_nul-spell (sextets bytes))
      (omega arith)

sextets-length : (bytes : List ℕ) → 4 * length bytes ≤ 3 * length (sextets bytes)
unfolding sextets
sextets-length [] = omega arith
sextets-length (a ∷ []) = omega arith
sextets-length (a ∷ b ∷ []) = omega arith
sextets-length (a ∷ b ∷ c ∷ rest) = let h = sextets-length rest in omega arith

-- Of 32 random bytes a key value is made, and it has 46 characters.
pub generate_stream_key-characters :
    (bytes : List ℕ)
    → length bytes ≡ 32
    → (value : String) × (generate_stream_key (ok bytes) ≡ ok value) × (characters value ≡ 46)
unfolding generate_stream_key encode_to_string
generate_stream_key-characters bytes h =
    let size = characters-sk (spell (sextets bytes)) in
    let spelled = characters-spell (sextets bytes) in
    let most = length-sextets bytes in
    let least = sextets-length bytes in ("sk_" ++ spell (sextets bytes), refl, omega arith)
