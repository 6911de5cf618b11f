-- ===== src/Tests/Streams.antt =====
-- The server of example/ws_echo_server.cpp with one client, from the call of uv_listen's callback on.
use libuv_server.Prelude.{
  ◌≡◌, refl, some, List, [], ◌∷◌, ◌++◌, pos, negsuc, arith, length, concat, All,
}
use libuv_server.Uv.{Uv, accepted, sent}
use libuv_server.Tcp.State.{TcpServer, make_connection}
use libuv_server.Tcp.Server.{on_connection, on_new_connection, count_opened}
use libuv_server.WebSocket.Frame.{make_frame, length_bytes}
use libuv_server.WebSocket.Parser.{Message}
use libuv_server.WebSocket.Connection.{
  WebSocketConnection, make_web_socket, start_heartbeat, serve, send, send_frame, try_send,
  write_front,
}
use libuv_server.WebSocket.Server.{web_socket_class, on_handshake_complete}
use libuv_server.WebSocket.Server.System.{at_start, and_then, accepts, shakes_hands}
use libuv_server.WebSocket.Server.System.Streams.{Reach-streams}
use libuv_server.WebSocket.Wire.{frames, IsSent, read_stream}
use libuv_server.Echo.{ws_server}

abbrev uv_works : Uv
uv_works = record { write_result = λ calls bytes. pos 0; ecanceled = negsuc 124 }

-- The client as `uv_accept` gives it, and behind the handshake, when it is greeted.
abbrev taken : TcpServer × WebSocketConnection
taken = on_new_connection (web_socket_class uv_works (λ b. b)) 7 counted (
    start_heartbeat counted 7
      (record (make_web_socket 7) { tcp = record (make_connection 7) { port = 80 } }))
  where
    counted : TcpServer
    counted = record ws_server { conn_id_counter = 1 }

abbrev greeted : TcpServer × WebSocketConnection
greeted = on_handshake_complete uv_works (λ b. b) 8 taken.0 taken.1

Reach-streams_example :
    let stream = concat (sent greeted.1.tcp.calls) in
    (accepted greeted.1.tcp.calls ≡ sent greeted.1.tcp.calls ++ greeted.1.send_queue)
    × ((ms : List Message) × (sent greeted.1.tcp.calls ≡ frames ms)
        × (All IsSent ms)
        × (read_stream (length stream) stream ≡ some ms))
unfolding on_connection on_new_connection count_opened on_handshake_complete start_heartbeat serve
    send send_frame try_send write_front make_frame length_bytes
Reach-streams_example =
    Reach-streams uv_works (λ b. b) ws_server
      {s = record { server = greeted.0; conns = greeted.1 ∷ []; total = 1; handshakes = 1 }} [] []
      greeted.1
      (and_then (and_then at_start (accepts _ 7 (pos 0) (pos 0) ([], 80) _ _ _ refl))
        (shakes_hands _ [] [] _ 8 refl))
      refl (omega arith, tt)
