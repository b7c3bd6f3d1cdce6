-- ===== src/Models.antt =====
-- The messages that a client and the service exchange (src/service/websocket/client/models.rs,
-- src/service/websocket/client/error.rs and src/service/websocket/client/game/models).
-- A `Uuid` is the number that it stands for. A JSON `Value` is held as its text.
pub mod Task
pub mod Error
pub mod Event
pub mod Request
pub mod Response
pub mod Default
pub mod Wire
pub mod Typed
