-- ===== src/Tcp.antt =====
-- The TCP server and its connections: include/uv_net/tcp_connection.h, include/uv_net/tcp_server.h,
-- src/uv_net/tcp_connection.cpp and src/uv_net/tcp_server.cpp.
pub mod State
pub mod Connection
pub mod Server
pub mod Channel
