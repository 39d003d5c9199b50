-- ===== src/Users.antt =====
-- api/routes/get/user.go: the users route and what it loads, with the types of common/types.go.
pub mod Potato
pub mod Query
pub mod Load
pub mod Route
mod Tests
