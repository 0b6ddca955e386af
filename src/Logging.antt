-- ===== src/Logging.antt =====
-- internal/logging/logging.go. `strings.ToLower` is a parameter.
use Prim.Native.String.{◌++◌}
use rescuestream_api.Prelude.{String, str_eq, if◌then◌else◌}
use rescuestream_api.Errors.{Result, ok, err, external}

-- The levels of log/slog that the program names.
pub data Level : Type 0 where
  level_debug level_info level_warn level_error : Level

-- `LogLevelToSlogLevel`; with its error the code returns the level `info`, which no caller reads.
unfoldable pub log_level_to_slog_level : (String → String) → String → Result Level
log_level_to_slog_level to_lower log_level =
    let level = to_lower log_level in
    if str_eq level "debug"
    then ok level_debug
    else if str_eq level "info"
    then ok level_info
    else if str_eq level "warn"
    then ok level_warn
    else if str_eq level "error"
    then ok level_error
    else err (external ("unknown log level: " ++ log_level))
