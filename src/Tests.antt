-- ===== src/Tests.antt =====
-- Sample tables and requests, the program run on them, and each theorem with hypotheses at an input.
mod Broadcasters
mod Data
mod Auth
mod Keys
mod Webhook
mod Http
mod Create
mod Server
mod History
mod Start
mod Lists
