-- ===== src/Tests/History.antt =====
-- src/uv_net/websocket_connection.cpp at concrete inputs: a history, and a late handshake.
use libuv_server.Prelude.{
  ltb, if◌then◌else◌, ◌≡◌, refl, some, none, [], ◌∷◌, pos, negsuc, arith, Bytes, codes,
}
use libuv_server.Config.{default_config, set_max_connections}
use libuv_server.Uv.{Uv, accepted, closes}
use libuv_server.Connection.{CallbackOpen, send_bytes}
use libuv_server.Tcp.State.{TcpServer}
use libuv_server.Tcp.Server.{
  make_server, set_on_open, on_new_connection, count_opened, on_connection, on_close, count_closed,
}
use libuv_server.WebSocket.Connection.{
  WebSocketConnection, make_web_socket, close, stop_heartbeat, start_heartbeat,
}
use libuv_server.WebSocket.Frame.{make_frame}
use libuv_server.WebSocket.Server.{web_socket_class, on_handshake_complete, on_handle_closed}
use libuv_server.WebSocket.History.{shakes_hands, ends}
use libuv_server.WebSocket.Server.System as Sys
use libuv_server.WebSocket.Server.System.{System}
use libuv_server.WebSocket.Server.System.Overcounted.{handshakes_use_up}
use libuv_server.WebSocket.Late.{late_handshake_closes_again}

-- Every write is taken on.
abbrev uv_works : Uv
uv_works = record { write_result = λ calls bytes. pos 0; ecanceled = negsuc 124 }

-- Every write on a handle that was closed is refused.
abbrev uv_refuses : Uv
uv_refuses = record {
  write_result = λ calls bytes. if ltb 0 (closes calls) then negsuc 31 else pos 0;
  ecanceled = negsuc 124;
}

-- A hash for the tests; the length of SHA-1's result is all that it shares with it.
abbrev a_hash : Bytes → Bytes
a_hash bytes = codes "01234567890123456789"

-- The user greets a new connection.
abbrev greet : CallbackOpen
greet peer = send_bytes (codes "hi") ∷ []

abbrev greeting_server : TcpServer
greeting_server = set_on_open (make_server default_config) (some greet)

-- The handshake is complete, the greeting goes out, the user closes, and the write is reported.
abbrev greeted : WebSocketConnection
greeted = (on_handshake_complete uv_works a_hash 1 greeting_server (make_web_socket 0)).1

late_handshake_closes_again_example :
    (closes (close (make_web_socket 0)).tcp.calls ≡ 1)
    × (let late =
          (on_handshake_complete uv_refuses a_hash 1 greeting_server
            (close (make_web_socket 0))).1.tcp.calls in
        (accepted late ≡ make_frame (codes "hi") 1 ∷ []) × (closes late ≡ 2))
late_handshake_closes_again_example =
    late_handshake_closes_again uv_refuses a_hash 1 greeting_server (make_web_socket 0) greet
      (codes "hi") (λ calls b h. ground (arith, h)) refl refl (omega arith) refl refl refl refl

-- A server that may have one connection, after it had one.
abbrev small_server : TcpServer
small_server = make_server (set_max_connections default_config 1)

abbrev used_up : System
used_up = record {
  server = record small_server { current_connections = 1; conn_id_counter = 1 };
  conns = [];
  total = 1;
  handshakes = 1;
}

handshakes_use_up_example :
    on_connection (web_socket_class uv_works a_hash) 9 (pos 0) (pos 0) ([], 80) used_up.server
    ≡ (used_up.server, none)
unfolding on_connection on_new_connection count_opened on_handshake_complete on_handle_closed
    on_close count_closed start_heartbeat close stop_heartbeat
handshakes_use_up_example =
    handshakes_use_up uv_works a_hash small_server {s = used_up} 9 (pos 0) (pos 0) ([], 80) refl
      (Sys.and_then
        (Sys.and_then
          (Sys.and_then
            (Sys.and_then Sys.at_start
              (Sys.accepts (Sys.idle small_server) 7 (pos 0) (pos 0) ([], 80) _ _ _ refl))
            (Sys.shakes_hands _ [] [] _ 8 refl))
          (Sys.acts _ [] [] _ _ refl (Sys.ends _)))
        (Sys.deletes _ [] [] _ 8 refl (omega arith)))
      (omega arith) (omega arith)
