-- ===== src/Echo/Talk.antt =====
-- example/echo_server.cpp and example/ws_echo_server.cpp: the conversation of a WebSocket client with
-- the echo server, behind the handshake.
pub mod Stream
use libuv_server.Prelude.{
  ℕ, ◌+◌, ◌≤◌, ◌<◌, ◌^◌, ◌≡◌, true, some, List, [], ◌∷◌, ◌++◌, pos, length, Bytes,
}
use libuv_server.Uv.{Uv}
use libuv_server.Tcp.State.{TcpServer}
use libuv_server.WebSocket.Parser.{Message}
use libuv_server.WebSocket.Connection.{WebSocketConnection, on_write_complete, on_heartbeat_timeout}
use libuv_server.WebSocket.Receive.Reads.{receive_all}
use libuv_server.WebSocket.Server.{on_handshake_complete}
use libuv_server.WebSocket.Receive.Client.{ClientFrame, frame_reads}
use libuv_server.Echo.Frames.{IsText, IsEcho}
use libuv_server.Echo.Opening.{greeting, IsWaiting}

-- The connection of a client that sent these frames, in order. The handshake is complete, frames come
-- in while the queue has room, writes end well, and the heartbeat runs out within two minutes of the
-- handshake; in any order, and whatever the server's counters are.
pub data Talk (uv : Uv) (sha1 : Bytes → Bytes)
    : List ClientFrame → WebSocketConnection → Type 0 where
  opens :
      (s : TcpServer) (now : ℕ) (c : WebSocketConnection)
      → IsEcho s
      → IsWaiting c
      → Talk uv sha1 [] (on_handshake_complete uv sha1 now s c).1
  says :
      {fs : List ClientFrame} {c : WebSocketConnection} (s : TcpServer) (f : ClientFrame)
      (c' : WebSocketConnection)
      → Talk uv sha1 fs c
      → IsEcho s
      → IsText f
      → length c.send_queue < 1000
      → receive_all uv sha1 s c (frame_reads f) ≡ some c'
      → Talk uv sha1 (fs ++ f ∷ []) c'
  writes :
      {fs : List ClientFrame} {c : WebSocketConnection}
      → Talk uv sha1 fs c
      → c.is_writing ≡ true
      → Talk uv sha1 fs (on_write_complete uv c (pos 0))
  waits :
      {fs : List ClientFrame} {c : WebSocketConnection} (s : TcpServer) (now : ℕ)
      → Talk uv sha1 fs c
      → IsEcho s
      → c.last_active_time ≤ now
      → now ≤ c.last_active_time + 120000
      → now < 2 ^ 64
      → Talk uv sha1 fs (on_heartbeat_timeout s now c)

-- What the client is to read: the greeting, then a text for each of its messages.
abbrev pub texts : List ClientFrame → List Message
texts [] = []
texts (f ∷ fs) = record { opcode = 1; payload = f.payload } ∷ texts fs

abbrev pub replies : List ClientFrame → List Message
replies fs = greeting ∷ texts fs
