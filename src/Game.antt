-- ===== src/Game.antt =====
-- `Game` (src/service/websocket/client/game.rs) and the methods of `PartialClient`
-- (src/service/websocket/client/game/partial_client.rs).
pub mod Progress
pub mod Messages
pub mod Delivery
pub mod Invariant
pub mod Members
pub mod Start
pub mod Steps
pub mod Still
pub mod Tables
pub mod Order
pub mod Judge
pub mod CodeTest
