-- ===== src/Handler/KeyStore.antt =====
-- internal/handler/keystore.go
use rescuestream_api.Prelude.{String, str_eq, if◌then◌else◌}
use rescuestream_api.Errors.{Result, ok, err, domain, external, unauthorized}

-- The interface `KeyStore`.
abbrev pub KeyStore : Type 0
KeyStore = String → Result String

pub record StaticKeyStore : Type 0 where
  pub api_key : String
  pub secret : String

-- `StaticKeyStore.GetSecret`
unfoldable pub static_get_secret : StaticKeyStore → KeyStore
static_get_secret s api_key =
    if str_eq api_key s.api_key then ok s.secret else err (domain unauthorized)

-- `EnvKeyStore.GetSecret`
unfoldable pub env_get_secret : String → KeyStore
env_get_secret secret api_key =
    if str_eq api_key "" then err (external "empty API key") else ok secret
