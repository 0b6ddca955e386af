-- ===== src/Handler.antt =====
-- internal/handler: from a request to a response. A body that `encoding/json` cannot decode into
-- the request's type is `none`.
pub mod Http
pub mod Auth
pub mod Webhook
pub mod StreamKeys
pub mod Broadcasters
pub mod Streams
pub mod Health
pub mod Payload
pub mod KeyStore
pub mod Signature
