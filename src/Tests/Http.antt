-- ===== src/Tests/Http.antt =====
-- Management requests on the sample tables.
use Prim.Native.String.{◌++◌}
use rescuestream_api.Prelude.{
  ℤ, pos, ◌≡◌, ◌↔◌, refl, ℕ, String, ◌≤◌, ◌+◌, ◌*◌, Option, none, some, str_eq, if◌then◌else◌,
}
use rescuestream_api.Errors.{ok}
use rescuestream_api.Handler.KeyStore.{KeyStore, static_get_secret}
use rescuestream_api.Handler.Signature.{
  SignedRequest, forwarded, authenticate, check_timestamp, check_secret, check_signature, in_window,
  max_timestamp_drift,
}
use rescuestream_api.Handler.Signature.Signed.{Signed, authenticate_forwarded_iff}

-- A timestamp that is parsed, a signature that is the secret before the text, and one key.
abbrev parse_int : String → Option ℤ
parse_int s = if str_eq s "1700000000" then some (pos 1700000000) else none

abbrev format_int : ℤ → String
format_int t = "1700000000"

abbrev sign : String → String → String
sign secret text = secret ++ text

abbrev store : KeyStore
store = static_get_secret (record { api_key = "admin"; secret = "s3cret" })

abbrev signed_get : SignedRequest
signed_get = record {
  method = "GET";
  path = "/streams";
  api_key = "admin";
  signature = "s3cretGET\n/streams\n1700000000\n";
  timestamp = "1700000000";
  body = ok "";
}

abbrev received : ℕ
received = 1700000100000000000

passes : authenticate parse_int format_int sign store received signed_get ≡ forwarded "admin"
unfolding authenticate check_timestamp check_secret check_signature in_window static_get_secret
passes = refl

authenticate_forwarded_iff_example :
    ((authenticate parse_int format_int sign store received signed_get ≡ forwarded "admin")
      ↔ Signed parse_int format_int sign store received signed_get)
    × ((k : String)
        → authenticate parse_int format_int sign store received signed_get ≡ forwarded k
        → k ≡ "admin")
    × ((later : ℕ)
        → authenticate parse_int format_int sign store received signed_get ≡ forwarded "admin"
        → authenticate parse_int format_int sign store later signed_get ≡ forwarded "admin"
        → later ≤ received + 2 * max_timestamp_drift)
authenticate_forwarded_iff_example =
    authenticate_forwarded_iff parse_int format_int sign store received signed_get
