-- ===== src/Service.antt =====
-- internal/service: what the handlers call. `time.Now()`, `NOW()`, new UUIDs and random bytes are
-- arguments; the log is left out.
pub mod MediaMtx
pub mod Auth
pub mod StreamKeys
pub mod Streams
pub mod Broadcasters
