-- ===== src/Handler/Payload.antt =====
-- The bodies that the handlers of internal/handler write, as one type for the server.
use rescuestream_api.Handler.Http.{Response, header, json, problem}
use rescuestream_api.Handler.StreamKeys.{KeyPayload}
use rescuestream_api.Handler.Broadcasters.{BroadcasterPayload}
use rescuestream_api.Handler.Streams.{StreamPayload}
use rescuestream_api.Handler.Health.{HealthResponse}

pub data Payload : Type 0 where
  key : KeyPayload → Payload
  broadcaster : BroadcasterPayload → Payload
  stream : StreamPayload → Payload
  health : HealthResponse → Payload
  empty : Payload

abbrev pub map_payload : {P Q : Type 0} → (P → Q) → Response P → Response Q
map_payload f (header n) = header n
map_payload f (json n p) = json n (f p)
map_payload f (problem e) = problem e
