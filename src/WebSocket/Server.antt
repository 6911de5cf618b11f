-- ===== src/WebSocket/Server.antt =====
-- src/uv_net/websocket_server.cpp and the parts of src/uv_net/websocket_connection.cpp that call the
-- server: the end of the handshake and of the connection.
pub mod Counting
pub mod System
use libuv_server.Prelude.{ℕ, Bytes}
use libuv_server.Config.{ServerConfig}
use libuv_server.Uv.{Uv}
use libuv_server.Tcp.State.{TcpServer}
use libuv_server.Tcp.Server as TcpServers
use libuv_server.Tcp.Server.{ConnectionClass}
use libuv_server.WebSocket.Connection.{
  WebSocketConnection, in_open, in_closed, make_web_socket, start_heartbeat, serve,
}
use libuv_server.WebSocket.Receive.{on_data_received}

-- What `WebSocketServer::CreateConnection` makes.
abbrev pub web_socket_class : Uv → (Bytes → Bytes) → ConnectionClass
web_socket_class uv sha1 = record {
  Conn = WebSocketConnection;
  create = make_web_socket;
  base = λ c. c.tcp;
  with_base = λ c t. record c { tcp = t };
  start = start_heartbeat;
  handle_requests = λ server now. serve uv server;
  receive = λ server now. on_data_received uv sha1 server;
}

-- The constructor is that of the base class.
abbrev pub make_server : ServerConfig → TcpServer
make_server config = TcpServers.make_server config

-- The overriding methods add a log line to those of the base class and call them.
abbrev pub on_new_connection :
    Uv → (Bytes → Bytes) → ℕ → TcpServer → WebSocketConnection → TcpServer × WebSocketConnection
on_new_connection uv sha1 now s c = TcpServers.on_new_connection (web_socket_class uv sha1) now s c

abbrev pub on_close :
    Uv → (Bytes → Bytes) → ℕ → TcpServer → WebSocketConnection → TcpServer × WebSocketConnection
on_close uv sha1 now s c = TcpServers.on_close (web_socket_class uv sha1) now s c

-- `OnHandshakeComplete`, the callback of the write of the response.
unfoldable pub on_handshake_complete :
    Uv → (Bytes → Bytes) → ℕ → TcpServer → WebSocketConnection → TcpServer × WebSocketConnection
on_handshake_complete uv sha1 now s c =
    on_new_connection uv sha1 now s (start_heartbeat s now (record c { state = in_open }))

-- The callback of `uv_close`; the connection is deleted after it.
unfoldable pub on_handle_closed :
    Uv → (Bytes → Bytes) → ℕ → TcpServer → WebSocketConnection → TcpServer × WebSocketConnection
on_handle_closed uv sha1 now s c = on_close uv sha1 now s (record c { state = in_closed })
