-- ===== src/Tokens.antt =====
-- The Twitch tokens: common/utils/requests.go, common/db/loops.go and the check of
-- api/routes/get/login.go.
pub mod Helix
pub mod Sweep
mod Tests
