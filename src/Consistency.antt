-- ===== src/Consistency.antt =====
-- The tables stay consistent: statement by statement, then request by request.
pub mod Base
pub mod Keys
pub mod Streams
pub mod Broadcasters
pub mod Rules
pub mod Revoke
pub mod Actions
pub mod Authenticate
pub mod Requests
pub mod Kept
pub mod Used
pub mod Reach
pub mod History
