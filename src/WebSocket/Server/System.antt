-- ===== src/WebSocket/Server/System.antt =====
-- src/uv_net/websocket_server.cpp with src/uv_net/websocket_connection.cpp: a WebSocket server and
-- all its connections, whose callbacks the event loop makes in any order, one at a time.
pub mod Overcounted
pub mod Streams
use libuv_server.Prelude.{ℕ, suc, ◌<◌, ◌≡◌, some, none, List, [], ◌∷◌, ◌++◌, ℤ, Bytes}
use libuv_server.Uv.{Uv, closes}
use libuv_server.Tcp.State.{TcpServer}
use libuv_server.Tcp.Server.{SocketOptions, on_connection, on_alloc, on_read}
use libuv_server.WebSocket.Connection.{
  WebSocketConnection, close, send, on_write_complete, on_heartbeat_timeout,
}
use libuv_server.WebSocket.Server.{web_socket_class, on_handshake_complete, on_handle_closed}

-- The server, the connections that are not deleted, how many were ever accepted, and how often
-- `OnHandshakeComplete` was called.
pub record System : Type 0 where
  pub server : TcpServer
  pub conns : List WebSocketConnection
  pub total : ℕ
  pub handshakes : ℕ

-- The user's calls, the heartbeat and the completion of a write.
pub data Action (uv : Uv) (server : TcpServer)
    : WebSocketConnection → WebSocketConnection → Type 0 where
  sends : (c : WebSocketConnection) (bytes : Bytes) → Action uv server c (send uv server c bytes)
  ends : (c : WebSocketConnection) → Action uv server c (close c)
  times_out :
      (c : WebSocketConnection) (now : ℕ) → Action uv server c (on_heartbeat_timeout server now c)
  reports :
      (c : WebSocketConnection) (status : ℤ) → Action uv server c (on_write_complete uv c status)

pub data Step (uv : Uv) (sha1 : Bytes → Bytes) : System → System → Type 0 where
  -- The callback of `uv_listen` that refuses, and the one that takes a connection.
  refuses :
      (s : System) (now : ℕ) (status result : ℤ) (from : Bytes × ℕ) (server : TcpServer)
      → on_connection (web_socket_class uv sha1) now status result from s.server ≡ (server, none)
      → Step uv sha1 s (record s { server = server })
  accepts :
      (s : System) (now : ℕ) (status result : ℤ) (from : Bytes × ℕ) (server : TcpServer)
      (c : WebSocketConnection) (options : SocketOptions)
      → on_connection (web_socket_class uv sha1) now status result from s.server
        ≡ (server, some (c, options))
      → Step uv sha1 s (record s { server = server; conns = c ∷ s.conns; total = suc s.total })
  -- libuv asks for a buffer and reports what it read into it.
  reads :
      (s : System) (before after : List WebSocketConnection) (c c' : WebSocketConnection) (now : ℕ)
      (nread : ℤ) (bytes : Bytes) (server : TcpServer)
      → s.conns ≡ before ++ c ∷ after
      → on_read
          (web_socket_class uv sha1)
          now
          nread
          bytes
          (on_alloc (web_socket_class uv sha1) s.server).0.0
          (on_alloc (web_socket_class uv sha1) s.server).1
          c
        ≡ some (server, c')
      → Step uv sha1 s (record s { server = server; conns = before ++ c' ∷ after })
  acts :
      (s : System) (before after : List WebSocketConnection) (c c' : WebSocketConnection)
      → s.conns ≡ before ++ c ∷ after
      → Action uv s.server c c'
      → Step uv sha1 s (record s { conns = before ++ c' ∷ after })
  -- The write of a response to a handshake ends.
  shakes_hands :
      (s : System) (before after : List WebSocketConnection) (c : WebSocketConnection) (now : ℕ)
      → s.conns ≡ before ++ c ∷ after
      → Step uv sha1 s (record s {
        server = (on_handshake_complete uv sha1 now s.server c).0;
        conns = before ++ (on_handshake_complete uv sha1 now s.server c).1 ∷ after;
        handshakes = suc s.handshakes;
      })
  -- The callback of a `uv_close`, which deletes the connection.
  deletes :
      (s : System) (before after : List WebSocketConnection) (c : WebSocketConnection) (now : ℕ)
      → s.conns ≡ before ++ c ∷ after
      → 0 < closes c.tcp.calls
      → Step uv sha1 s (record s {
        server = (on_handle_closed uv sha1 now s.server c).0;
        conns = before ++ after;
      })

pub data Reach (uv : Uv) (sha1 : Bytes → Bytes) (s : System) : System → Type 0 where
  at_start : Reach uv sha1 s s
  and_then : {t u : System} → Reach uv sha1 s t → Step uv sha1 t u → Reach uv sha1 s u

-- A server without connections.
abbrev pub idle : TcpServer → System
idle server = record { server = server; conns = []; total = 0; handshakes = 0 }
