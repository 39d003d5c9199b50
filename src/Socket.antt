-- ===== src/Socket.antt =====
-- socket/hub.go and socket/client.go: the hub that fans messages out to websocket clients.
pub mod Hub
pub mod Entry
pub mod System
pub mod Pump
mod Tests
