-- ===== src/WebSocket/Receive.antt =====
-- src/uv_net/websocket_connection.cpp: what a connection does with the bytes that it receives.
pub mod Answer
pub mod Separate
pub mod Frames
pub mod Reads
pub mod Again
pub mod Answered
pub mod Client
pub mod Delivered
pub mod Fragmented
pub mod Empty
use libuv_server.Prelude.{
  Bool, true, false, Option, none, some, ◌∷◌, ◌++◌, to_size, ◌==◌, if◌then◌else◌, take, Bytes,
}
use libuv_server.Protocol.{ServerProtocol, package_less, package_full, package_error}
use libuv_server.Uv.{Uv, write_handshake, message}
use libuv_server.Tcp.State.{TcpConnection, TcpServer, peer}
use libuv_server.WebSocket.Handshake.{handshake_key, request_ends, handshake_response}
use libuv_server.WebSocket.Parser.{Message}
use libuv_server.WebSocket.Parser.Loop.{parse_loop}
use libuv_server.WebSocket.Connection.{
  WebSocketConnection, State, in_handshake, in_closing, is_open, close, send_frame, serve,
}

-- `WebSocketServer::OnMessage`, which is `TcpServer::OnMessage`.
unfoldable pub on_message : Uv → TcpServer → WebSocketConnection → Bytes → WebSocketConnection
on_message uv server c bytes = elim server.on_message [
  | none ↦ c
  | some callback ↦
      serve uv server (callback (peer c.tcp) bytes)
        (record c { tcp = record t { calls = message bytes ∷ t.calls } })
]
  where
    t : TcpConnection
    t = c.tcp

-- The verdict of the parser on the payload of a frame.
unfoldable pub deliver_package :
    Uv → TcpServer → ServerProtocol → WebSocketConnection → Bytes → WebSocketConnection
deliver_package uv server protocol c bytes = elim (protocol.parse_package bytes).status [
  | package_full ↦
      on_message uv server c (take (to_size (protocol.parse_package bytes).package_len) bytes)
  | package_error ↦ close c
  | package_less ↦ c
]

-- `ProcessTextFrame`.
unfoldable pub process_text_frame :
    Uv → TcpServer → WebSocketConnection → Bytes → WebSocketConnection
process_text_frame uv server c bytes =
    if is_open c.state
    then elim server.server_protocol [
      | none ↦ on_message uv server c bytes
      | some protocol ↦ deliver_package uv server protocol c bytes
    ]
    else c

-- `ProcessBinaryFrame`.
unfoldable pub process_binary_frame :
    Uv → TcpServer → WebSocketConnection → Bytes → WebSocketConnection
process_binary_frame uv server c bytes =
    if is_open c.state
    then elim server.server_protocol [
      | none ↦ on_message uv server c bytes
      | some protocol ↦ deliver_package uv server protocol c bytes
    ]
    else c

-- `ProcessCloseFrame`.
unfoldable pub process_close_frame : Uv → WebSocketConnection → Bytes → WebSocketConnection
process_close_frame uv c bytes = close (send_frame uv (record c { state = in_closing }) bytes 0x08)

-- `ProcessPingFrame`.
unfoldable pub process_ping_frame : Uv → WebSocketConnection → Bytes → WebSocketConnection
process_ping_frame uv c bytes = send_frame uv c bytes 0x0a

-- `ProcessPongFrame`.
unfoldable pub process_pong_frame : WebSocketConnection → Bytes → WebSocketConnection
process_pong_frame c bytes = c

-- The `switch` on the opcode.
unfoldable pub process_frame : Uv → TcpServer → Message → WebSocketConnection → WebSocketConnection
process_frame uv server m c =
    if m.opcode == 0x01
    then process_text_frame uv server c m.payload
    else if m.opcode == 0x02
    then process_binary_frame uv server c m.payload
    else if m.opcode == 0x08
    then process_close_frame uv c m.payload
    else if m.opcode == 0x09
    then process_ping_frame uv c m.payload
    else if m.opcode == 0x0a
    then process_pong_frame c m.payload
    else c

-- `ParseFrame`; `none` means that it never returns (`parse_loop_ends_iff`).
unfoldable pub parse_frame :
    Uv → TcpServer → WebSocketConnection → Bytes → Option WebSocketConnection
parse_frame uv server c bytes = elim (parse_loop (process_frame uv server) 4 c.parser c bytes) [
  | none ↦ none
  | some (p, c') ↦ some (record c' { parser = p })
]

-- `SendHandshakeResponse`. What `uv_write` returns is not looked at.
unfoldable pub send_handshake_response :
    Uv → (Bytes → Bytes) → WebSocketConnection → Bytes → WebSocketConnection
send_handshake_response uv sha1 c key = record c {
  tcp = record t { calls = write_handshake response (uv.write_result t.calls response) ∷ t.calls };
}
  where
    t : TcpConnection
    t = c.tcp

    response : Bytes
    response = handshake_response sha1 key

-- `ParseHandshake`, with the result that its caller drops.
unfoldable pub parse_handshake :
    Uv → (Bytes → Bytes) → WebSocketConnection → Bytes → WebSocketConnection × Bool
parse_handshake uv sha1 c handshake_data = elim (handshake_key handshake_data) [
  | none ↦ (c, false)
  | some key ↦ (send_handshake_response uv sha1 c key, true)
]

-- `OnDataReceived` before the connection is open.
unfoldable pub receive_handshake :
    Uv → (Bytes → Bytes) → WebSocketConnection → Bytes → WebSocketConnection
receive_handshake uv sha1 c bytes =
    if request_ends received.handshake_buffer
    then (parse_handshake uv sha1 received received.handshake_buffer).0
    else received
  where
    received : WebSocketConnection
    received = record c { handshake_buffer = c.handshake_buffer ++ bytes }

-- `OnDataReceived`.
unfoldable pub on_data_received_in :
    State
    → Uv
    → (Bytes → Bytes)
    → TcpServer
    → WebSocketConnection
    → Bytes
    → Option WebSocketConnection
on_data_received_in in_handshake uv sha1 server c bytes = some (receive_handshake uv sha1 c bytes)
on_data_received_in _ uv sha1 server c bytes = parse_frame uv server c bytes

abbrev pub on_data_received :
    Uv → (Bytes → Bytes) → TcpServer → WebSocketConnection → Bytes → Option WebSocketConnection
on_data_received uv sha1 server c bytes = on_data_received_in c.state uv sha1 server c bytes
