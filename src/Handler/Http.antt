-- ===== src/Handler/Http.antt =====
-- internal/handler/errors.go, and what a handler asks of the `ResponseWriter`.
pub mod Respond
use rescuestream_api.Prelude.{ℕ, String, if◌then◌else◌}
use rescuestream_api.Errors.{
  ok, err, Action, Error, not_found, already_exists, invalid_status, stream_key_in_use,
  stream_key_revoked, stream_key_expired, invalid_stream_key, unauthorized, errors_is,
}

pub data Method : Type 0 where
  get post patch delete other : Method

pub record HttpError : Type 0 where
  pub status : ℕ
  pub type : String
  pub title : String
  pub detail : String

-- `w.WriteHeader(status)`, `WriteJSON(w, status, payload)` and `WriteError(w, r, e)`.
pub data Response (P : Type 0) : Type 0 where
  header : ℕ → Response P
  json : ℕ → P → Response P
  problem : HttpError → Response P

-- The status that the client sees.
abbrev pub status_of : {P : Type 0} → Response P → ℕ
status_of (header n) = n
status_of (json n p) = n
status_of (problem e) = e.status

abbrev pub err_not_found : String → HttpError
err_not_found detail = record {
  status = 404;
  type = "/errors/not-found";
  title = "Not Found";
  detail = detail;
}

abbrev pub err_invalid_request : String → HttpError
err_invalid_request detail = record {
  status = 400;
  type = "/errors/invalid-request";
  title = "Invalid Request";
  detail = detail;
}

abbrev pub err_unauthorized : String → HttpError
err_unauthorized detail = record {
  status = 401;
  type = "/errors/unauthorized";
  title = "Unauthorized";
  detail = detail;
}

abbrev pub err_conflict : String → HttpError
err_conflict detail = record {
  status = 409;
  type = "/errors/conflict";
  title = "Conflict";
  detail = detail;
}

abbrev pub err_internal_server : String → HttpError
err_internal_server detail = record {
  status = 500;
  type = "/errors/internal-error";
  title = "Internal Server Error";
  detail = detail;
}

abbrev pub in_use_error : HttpError
in_use_error = record {
  status = 409;
  type = "/errors/stream-key-in-use";
  title = "Stream Key In Use";
  detail = "This stream key is already in use by an active stream";
}

abbrev pub revoked_error : HttpError
revoked_error = record {
  status = 401;
  type = "/errors/stream-key-revoked";
  title = "Stream Key Revoked";
  detail = "This stream key has been revoked";
}

abbrev pub expired_error : HttpError
expired_error = record {
  status = 401;
  type = "/errors/stream-key-expired";
  title = "Stream Key Expired";
  detail = "This stream key has expired";
}

abbrev pub invalid_key_error : HttpError
invalid_key_error = record {
  status = 401;
  type = "/errors/invalid-stream-key";
  title = "Invalid Stream Key";
  detail = "The provided stream key is invalid";
}

-- `MapDomainError`
unfoldable pub map_domain_error : Error → HttpError
map_domain_error e =
    if errors_is e not_found
    then err_not_found "The requested resource was not found"
    else if errors_is e already_exists
    then err_conflict "A resource with the same identifier already exists"
    else if errors_is e invalid_status
    then err_invalid_request "Invalid status transition"
    else if errors_is e stream_key_in_use
    then in_use_error
    else if errors_is e stream_key_revoked
    then revoked_error
    else if errors_is e stream_key_expired
    then expired_error
    else if errors_is e invalid_stream_key
    then invalid_key_error
    else if errors_is e unauthorized
    then err_unauthorized "Unauthorized"
    else err_internal_server "An unexpected error occurred"

-- A handler's call: it answers with what `f` makes of the value, or with the error that `g` makes.
abbrev pub respond :
    {W A P : Type 0} → (A → Response P) → (Error → HttpError) → Action W A → W → Response P × W
respond f g m w = let (r, w') = m w in (elim r [ ok a ↦ f a | err x ↦ problem (g x) ], w')

-- `WriteError(w, r, e); return`
abbrev pub refuse : {W P : Type 0} → HttpError → W → Response P × W
refuse e w = (problem e, w)
