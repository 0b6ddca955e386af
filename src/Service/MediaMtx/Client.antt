-- ===== src/Service/MediaMtx/Client.antt =====
-- The options of the client of internal/service/mediamtx.go, and `NewMediaMTXClient`. The generated
-- client of gomediamtx is a parameter.
use rescuestream_api.Prelude.{pos, String, List, [], ◌∷◌}
use rescuestream_api.Errors.{Action, pure, wrapping, ◌>>=◌}
use rescuestream_api.Database.Pool.{Duration}

-- `http.Client`, of which the options say the timeout.
pub record HttpClient : Type 0 where
  pub timeout : Duration

-- `mediaAPIOptions`; the logger is left out.
pub record MediaApiOptions : Type 0 where
  pub http_client : HttpClient
  pub timeout : Duration

unfoldable pub default_media_mtx_options : MediaApiOptions
default_media_mtx_options = record {
  http_client = record { timeout = pos 10000000000 };
  timeout = pos 10000000000;
}

-- `MediaMTXOption`
abbrev pub MediaMtxOption : Type 0
MediaMtxOption = MediaApiOptions → MediaApiOptions

unfoldable pub with_http_client : HttpClient → MediaMtxOption
with_http_client c o = record o { http_client = c }

unfoldable pub with_timeout : Duration → MediaMtxOption
with_timeout d o = record o { timeout = d }

-- `for _, opt := range opts { opt(cfg) }`
unfoldable pub apply_media_mtx_options : List MediaMtxOption → MediaMtxOption
apply_media_mtx_options [] o = o
apply_media_mtx_options (opt ∷ opts) o = apply_media_mtx_options opts (opt o)

-- `MediaMTXClient`, around the generated client.
pub record MediaMtxClient (Generated : Type 0) : Type 0 where
  pub client : Generated
  pub public_url : String

-- `mediamtx.NewClientWithResponses` is the parameter.
unfoldable pub new_media_mtx_client :
    {World Generated : Type 0}
    → (String → HttpClient → Action World Generated)
    → String
    → String
    → List MediaMtxOption
    → Action World (MediaMtxClient Generated)
new_media_mtx_client new_client api_url public_url opts = do
  let cfg = apply_media_mtx_options opts default_media_mtx_options
  client ← wrapping "failed to create MediaMTX client" (new_client api_url cfg.http_client)
  pure (record { client = client; public_url = public_url })
