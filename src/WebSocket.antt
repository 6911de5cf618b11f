-- ===== src/WebSocket.antt =====
-- The WebSocket server: src/uv_net/websocket_connection.cpp and src/uv_net/websocket_server.cpp with
-- their headers.
pub mod Frame
pub mod Parser
pub mod Handshake
pub mod Connection
pub mod Receive
pub mod Server
pub mod Rules
pub mod Invariant
pub mod History
pub mod Stuck
pub mod Late
pub mod Activity
pub mod Wire
pub mod Streamed
