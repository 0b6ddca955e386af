-- ===== src/Handler/Streams/Answers.antt =====
-- The answer to `GET /streams` of internal/handler/stream.go.
use rescuestream_api.Prelude.{◌≡◌, ap, subst, String, Option, true, false, List, any, length}
use rescuestream_api.Domain.{Uuid, StreamWithUrls}
use rescuestream_api.Errors.{ok, err}
use rescuestream_api.Env.{Env}
use rescuestream_api.Service.Streams.Listed.{
  Listed, IsListed, is_other, decodes_all, active_rows, list_active-Listed, list_active-some,
}
use rescuestream_api.Handler.Http.{Response, json, problem, get, err_internal_server}
use rescuestream_api.Handler.Streams.{StreamPayload, streams, list_streams, serve_http}

module _ (e : Env) (url : String) (parse_uuid : String → Option Uuid) where
  open e use {World, tables, healthy}

  -- While the database answers and the metadata of every active stream are null or an object, `GET /streams` is
  -- answered with 200 and the active streams, each once with its URLs, the latest first, and with
  -- their number; and the tables stay.
  pub list_streams-Listed :
      (w : World)
      → healthy w ≡ true
      → any (λ r. is_other r.metadata) (active_rows (tables w)) ≡ false
      → (ss : List StreamWithUrls) × ((serve_http e url parse_uuid get "" w).0
          ≡ json 200 (streams ss (length ss)))
        × Listed url (tables w) ss
        × (tables (serve_http e url parse_uuid get "" w).1 ≡ tables w)
  unfolding serve_http list_streams
  list_streams-Listed w up maps =
      let (ss, result) = list_active-some e url w up (decodes_all (active_rows (tables w)) maps) in
      let (listed, same) = list_active-Listed e url w in
      (
        ss,
        ap
            (λ r. elim r as (λ _. Response StreamPayload) [
              | ok xs ↦ json 200 (streams xs (length xs))
              | err x ↦ problem (err_internal_server "failed to list streams")
            ])
            result,
        subst (IsListed url (tables w)) result listed,
        same,
      )
