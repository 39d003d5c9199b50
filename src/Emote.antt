-- ===== src/Emote.antt =====
-- common/normalemote.go: the emotes of four providers brought into one shape.
pub mod Url
pub mod Ids
pub mod Normalize
mod Tests
