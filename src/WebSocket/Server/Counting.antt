-- ===== src/WebSocket/Server/Counting.antt =====
-- src/uv_net/websocket_connection.cpp: how often a WebSocket connection is counted.
use libuv_server.Prelude.{ℕ, suc, ◌+◌, ◌^◌, ◌<◌, ◌≡◌, Bytes, pos, arith}
use libuv_server.Uv.{Uv}
use libuv_server.Tcp.State.{TcpServer}
use libuv_server.Tcp.Server.{on_connection, on_new_connection, on_close, count_opened, count_closed}
use libuv_server.WebSocket.Connection.{WebSocketConnection}
use libuv_server.WebSocket.Server.{web_socket_class, on_handshake_complete, on_handle_closed}

-- A WebSocket connection is counted when it is accepted and again when its handshake is complete,
-- and counted off once: on a server below its limit, and with room in the counter, the count is
-- one too high when the connection is gone.
pub handshake_counts_again :
    (uv : Uv) (sha1 : Bytes → Bytes) (now later last : ℕ) (from : Bytes × ℕ) (s : TcpServer)
    (c c' : WebSocketConnection)
    → s.current_connections < s.config.max_connections
    → s.current_connections + 2 < 2 ^ 64
    → let s1 = (on_connection (web_socket_class uv sha1) now (pos 0) (pos 0) from s).0 in
      let s2 = (on_handshake_complete uv sha1 later s1 c).0 in
      (on_handle_closed uv sha1 last s2 c').0.current_connections ≡ suc s.current_connections
unfolding on_connection on_new_connection on_close count_opened count_closed on_handshake_complete
    on_handle_closed
handshake_counts_again uv sha1 now later last (ip, port) s c c' h room = ground arith
