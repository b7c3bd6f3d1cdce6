-- ===== src/Handlers.antt =====
-- `Request::handle_message` (src/service/websocket/client/game/models/request.rs), one function for each op
-- code, and `ClientMessageHandler::handle_message` (src/service/websocket/client/message_handler.rs).
pub mod Parse
pub mod Hosting
pub mod Join
pub mod Lobby
pub mod Play
pub mod Compile
pub mod Dispatch
