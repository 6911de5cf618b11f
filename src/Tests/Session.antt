-- ===== src/Tests/Session.antt =====
-- The heartbeat of src/uv_net/tcp_connection.cpp, and a session with example/ws_echo_server.cpp, at
-- concrete inputs.
use libuv_server.Prelude.{
  ◌+◌, ◌*◌, ◌≤◌, ◌<◌, ◌≡◌, refl, some, [], ◌∷◌, ◌++◌, pos, negsuc, arith, Bytes, codes,
}
use libuv_server.Config.{default_config}
use libuv_server.Uv.{Uv, accepted, write_handshake}
use libuv_server.Tcp.State.{TcpServer, TcpConnection, make_connection}
use libuv_server.Tcp.Server.{make_server}
use libuv_server.Tcp.Connection as Tcp
use libuv_server.Tcp.Connection.Alive as Alive
use libuv_server.Tcp.Connection.Alive.{heartbeat_follows_activity}
use libuv_server.WebSocket.Handshake.{handshake_response, request_ends, search_from}
use libuv_server.WebSocket.Parser.{unmask, initial}
use libuv_server.WebSocket.Connection.{
  WebSocketConnection, make_web_socket, send, on_write_complete,
}
use libuv_server.WebSocket.Receive.Reads.{receive_all}
use libuv_server.WebSocket.Server.{on_handshake_complete}
use libuv_server.WebSocket.Wire.{frames}
use libuv_server.Echo.{ws_server}
use libuv_server.WebSocket.Receive.{process_frame, on_message}
use libuv_server.WebSocket.Receive.Separate.{with_parser}
use libuv_server.WebSocket.Receive.Client.{ClientFrame, frame_reads, framed}
use libuv_server.Echo.Frames.{IsText, IsEcho}
use libuv_server.Echo.Opening.{IsWaiting, greeting}
use libuv_server.Echo.Session.{session_answered}
use libuv_server.Echo.Talk

-- Every write is taken on.
abbrev uv_works : Uv
uv_works = record { write_result = λ calls bytes. pos 0; ecanceled = negsuc 124 }

-- A hash for the tests; the length of SHA-1's result is all that it shares with it.
abbrev a_hash : Bytes → Bytes
a_hash bytes = codes "01234567890123456789"

abbrev a_server : TcpServer
a_server = make_server default_config

-- A text is accepted at the time 40000.
abbrev active : TcpConnection
active = Tcp.send uv_works a_server 40000 (make_connection 0) (5 ∷ [])

heartbeat_follows_activity_example :
    (160001 ≤ 40000 + 60000 * 2 → Tcp.on_heartbeat_timeout a_server 160001 active ≡ active)
    × (40000 + 60000 * 2 < 160001
        → Tcp.on_heartbeat_timeout a_server 160001 active ≡ Tcp.close active)
heartbeat_follows_activity_example =
    heartbeat_follows_activity uv_works a_server 40000 160001
      (Alive.sends (make_connection 0) (5 ∷ []) refl refl) (omega arith) (omega arith) (omega arith)

-- "Hello" as RFC 6455 masks it.
abbrev hello : ClientFrame
hello = record {
  h0 = 129;
  k0 = 0x37;
  k1 = 0xfa;
  k2 = 0x21;
  k3 = 0x3d;
  payload = codes "Hello";
  piece = 0x7f ∷ 0x9f ∷ [];
  pieces = (0x4d ∷ 0x51 ∷ 0x58 ∷ []) ∷ [];
}

hello-IsText : IsText hello
unfolding unmask
hello-IsText = record {
  text_or_binary = refl;
  frame = record {
    short = omega arith;
    key_bytes = (omega arith, (omega arith, (omega arith, (omega arith, tt))));
    payload_bytes = (omega arith, (omega arith, (omega arith, (omega arith, (omega arith, tt)))));
    filled = (omega arith, (omega arith, tt));
    masked = refl;
  };
}

-- The settings of the echo server.
abbrev echo : IsEcho ws_server
echo = record {
  on_open = refl;
  on_message = refl;
  no_protocol = refl;
  limit = refl;
  interval = refl;
}

abbrev waiting : IsWaiting (make_web_socket 0)
waiting = record {
  waits = refl;
  not_graceful = refl;
  not_writing = refl;
  nothing_queued = refl;
  nothing_parsed = refl;
  nothing_accepted = refl;
  nothing_sent = refl;
}

-- A request in two reads, and "Hello" behind the handshake.
session_answered_example :
    (c1 : WebSocketConnection) × (c3 : WebSocketConnection) × (receive_all uv_works a_hash ws_server
        (make_web_socket 0)
        ((codes "G\r\nSec-WebSocket-Key: dGh" ∷ []) ++ codes "l\r\n\r\n" ∷ [])
      ≡ some c1)
    × (c1.tcp.calls ≡ write_handshake (handshake_response a_hash (codes "dGhl")) (pos 0) ∷ [])
    × (let opening = on_handshake_complete uv_works a_hash 1 ws_server c1 in
        receive_all uv_works a_hash opening.0 opening.1 (frame_reads hello) ≡ some c3)
    × (accepted c3.tcp.calls
        ≡ frames (greeting ∷ record { opcode = 1; payload = codes "Hello" } ∷ []))
session_answered_example =
    session_answered uv_works a_hash 1 ws_server (make_web_socket 0)
      (codes "G\r\nSec-WebSocket-Key: dGh" ∷ []) (codes "l\r\n\r\n") (codes "G\r\n") (codes "dGhl")
      (codes "\r\n") hello (λ calls b. refl) echo waiting refl
      (unfold request_ends search_from in refl) refl (unfold request_ends search_from in refl)
      (refl, (refl, (refl, tt))) (refl, (refl, (refl, (refl, tt)))) (omega arith) hello-IsText

-- The client is greeted, says "Hello", and both writes end.
abbrev talked : WebSocketConnection
talked =
    on_write_complete uv_works
      (on_write_complete uv_works
        (with_parser initial (
          process_frame uv_works ws_server (framed hello)
            (on_handshake_complete uv_works a_hash 1 ws_server (make_web_socket 0)).1))
        (pos 0))
      (pos 0)
