-- ===== src/Service/StreamKeys/Base64.antt =====
-- `base64.RawURLEncoding.EncodeToString` of Go's standard library: six bits a character, with no
-- padding.
use Prim.Native.Char.{Char}
use rescuestream_api.Prelude.{ℕ, zero, suc, ◌+◌, ◌*◌, ◌/◌, ◌%◌, String, List, [], ◌∷◌}

-- The alphabet of base64url, by value.
abbrev pub alphabet : String
alphabet = "ABCDEFGHIJKLMNOPQRSTUVWXYZabcdefghijklmnopqrstuvwxyz0123456789-_"

abbrev pub char_at : String → ℕ → Char
char_at String.[] n = "A"
char_at (String.◌∷◌ c s) zero = c
char_at (String.◌∷◌ c s) (suc n) = char_at s n

abbrev pub digit : ℕ → Char
digit n = char_at alphabet n

-- The values of the characters: each three bytes are four groups of six bits, and a rest of one or
-- two bytes is two or three groups, the last filled up with zero bits.
unfoldable pub sextets : List ℕ → List ℕ
sextets [] = []
sextets (a ∷ []) = (a / 4) ∷ (a % 4 * 16) ∷ []
sextets (a ∷ b ∷ []) = (a / 4) ∷ (a % 4 * 16 + b / 16) ∷ (b % 16 * 4) ∷ []
sextets (a ∷ b ∷ c ∷ rest) =
    (a / 4) ∷ (a % 4 * 16 + b / 16) ∷ (b % 16 * 4 + c / 64) ∷ (c % 64) ∷ sextets rest

unfoldable pub spell : List ℕ → String
spell [] = ""
spell (n ∷ ns) = String.◌∷◌ (digit n) (spell ns)

unfoldable pub encode_to_string : List ℕ → String
unfolding sextets spell
encode_to_string bytes = spell (sextets bytes)
