-- ===== src/Handler/Signature.antt =====
-- `AuthMiddleware.Authenticate` of internal/handler/middleware.go: who may call the management API.
-- `strconv.ParseInt`, the formatting of a number and HMAC-SHA256 in hexadecimal are parameters.
pub mod Signed
use Prim.Native.String.{◌++◌}
use rescuestream_api.Prelude.{
  ℤ, pos, negsuc, ℕ, suc, ◌+◌, ◌*◌, String, Bool, not, ◌&&◌, ◌||◌, Option, none, some, leb, str_eq,
  if◌then◌else◌,
}
use rescuestream_api.Errors.{Result, ok, err}
use rescuestream_api.Handler.KeyStore.{KeyStore}

-- What the middleware reads of a request; a header that is missing is the empty string.
pub record SignedRequest : Type 0 where
  pub method : String
  pub path : String
  pub api_key : String
  pub signature : String
  pub timestamp : String
  pub body : Result String

-- The problem that is written (status, title, detail), or the next handler with the API key in the
-- context.
pub data Verdict : Type 0 where
  denied : ℕ → String → String → Verdict
  forwarded : String → Verdict

-- Nanoseconds in a second, and in `MaxTimestampDrift`.
abbrev pub second : ℕ
second = 1000000000

abbrev pub max_timestamp_drift : ℕ
max_timestamp_drift = 300000000000

-- `timeDiff` lies in the window; `now` is in nanoseconds and the timestamp in seconds since 1970.
-- `time.Since` saturates far outside of the window.
unfoldable pub in_window : ℕ → ℤ → Bool
in_window now (pos s) =
    leb (s * second) (now + max_timestamp_drift) && leb now (s * second + max_timestamp_drift)
in_window now (negsuc n) = leb (now + suc n * second) max_timestamp_drift

abbrev pub unauthorized_because : String → Verdict
unauthorized_because = denied 401 "Unauthorized"

module _ (parse_int : String → Option ℤ) (format_int : ℤ → String) (sign : String → String → String)
    (get_secret : KeyStore) where
  -- `fmt.Sprintf("%s\n%s\n%d\n%s", …)`
  abbrev pub string_to_sign : SignedRequest → ℤ → String → String
  string_to_sign r timestamp body =
      r.method ++ "\n" ++ r.path ++ "\n" ++ format_int timestamp ++ "\n" ++ body

  -- From the reading of the body on.
  unfoldable pub check_signature : SignedRequest → ℤ → String → Result String → Verdict
  check_signature r timestamp secret (err x) =
      denied 500 "Internal Server Error" "Failed to read request body"
  check_signature r timestamp secret (ok body) =
      if str_eq r.signature (sign secret (string_to_sign r timestamp body))
      then forwarded r.api_key
      else unauthorized_because "Invalid signature"

  -- From the look-up of the secret on.
  unfoldable pub check_secret : SignedRequest → ℤ → Result String → Verdict
  check_secret r timestamp (err x) = unauthorized_because "Invalid API key"
  check_secret r timestamp (ok secret) = check_signature r timestamp secret r.body

  -- From the parsed timestamp on.
  unfoldable pub check_timestamp : ℕ → SignedRequest → Option ℤ → Verdict
  check_timestamp now r none = unauthorized_because "Invalid timestamp format"
  check_timestamp now r (some timestamp) =
      if in_window now timestamp
      then check_secret r timestamp (get_secret r.api_key)
      else unauthorized_because "Request timestamp is too old or in the future"

  unfoldable pub authenticate : ℕ → SignedRequest → Verdict
  authenticate now r =
      if str_eq r.api_key "" || str_eq r.signature "" || str_eq r.timestamp ""
      then unauthorized_because
          "Missing authentication headers (X-API-Key, X-Signature, X-Timestamp)"
      else check_timestamp now r (parse_int r.timestamp)
