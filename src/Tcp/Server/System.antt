-- ===== src/Tcp/Server/System.antt =====
-- src/uv_net/tcp_server.cpp with src/uv_net/tcp_connection.cpp: a server and all its connections,
-- whose callbacks the event loop makes in any order, one at a time.
mod Ids
mod Callbacks
pub mod Counted
pub mod Open
pub mod Queues
use libuv_server.Prelude.{ℕ, ◌<◌, ◌≡◌, true, some, none, suc, ◌+◌, List, [], ◌∷◌, ◌++◌, ℤ, Bytes}
use libuv_server.Config.{ServerConfig}
use libuv_server.Uv.{Uv, Calls, Call}
use libuv_server.Connection.{CallbackOpen}
use libuv_server.Tcp.State.{TcpConnection, TcpServer}
use libuv_server.Tcp.Connection.{
  start_heartbeat, close, send, on_write_complete, on_heartbeat_timeout, on_data_received,
}
use libuv_server.Tcp.Connection.Invariant.{has_closed}
use libuv_server.Tcp.Server.{SocketOptions, tcp_class, on_connection, on_close, on_alloc, on_read}

-- The server, the connections that are not deleted, and how many were ever accepted.
pub record System : Type 0 where
  pub server : TcpServer
  pub conns : List TcpConnection
  pub total : ℕ

-- What happens to a connection without a change of the server: the user's calls, the heartbeat and
-- the completion of a write.
pub data Action (uv : Uv) (server : TcpServer) : TcpConnection → TcpConnection → Type 0 where
  sends :
      (c : TcpConnection) (now : ℕ) (bytes : Bytes)
      → Action uv server c (send uv server now c bytes)
  ends : (c : TcpConnection) → Action uv server c (close c)
  times_out : (c : TcpConnection) (now : ℕ) → Action uv server c (on_heartbeat_timeout server now c)
  reports :
      (c : TcpConnection) (now : ℕ) (status : ℤ)
      → Action uv server c (on_write_complete uv now c status)

pub data Step (uv : Uv) : System → System → Type 0 where
  -- The callback of `uv_listen` that refuses, and the one that takes a connection.
  refuses :
      (s : System) (now : ℕ) (status result : ℤ) (from : Bytes × ℕ) (server : TcpServer)
      → on_connection (tcp_class uv) now status result from s.server ≡ (server, none)
      → Step uv s (record s { server = server })
  accepts :
      (s : System) (now : ℕ) (status result : ℤ) (from : Bytes × ℕ) (server : TcpServer)
      (c : TcpConnection) (options : SocketOptions)
      → on_connection (tcp_class uv) now status result from s.server ≡ (server, some (c, options))
      → Step uv s (record { server = server; conns = c ∷ s.conns; total = suc s.total })
  -- libuv asks for a buffer and reports what it read into it.
  reads :
      (s : System) (before after : List TcpConnection) (c c' : TcpConnection) (now : ℕ) (nread : ℤ)
      (bytes : Bytes) (server : TcpServer)
      → s.conns ≡ before ++ c ∷ after
      → on_read
          (tcp_class uv)
          now
          nread
          bytes
          (on_alloc (tcp_class uv) s.server).0.0
          (on_alloc (tcp_class uv) s.server).1
          c
        ≡ some (server, c')
      → Step uv s (record s { server = server; conns = before ++ c' ∷ after })
  acts :
      (s : System) (before after : List TcpConnection) (c c' : TcpConnection)
      → s.conns ≡ before ++ c ∷ after
      → Action uv s.server c c'
      → Step uv s (record s { conns = before ++ c' ∷ after })
  -- The callback of the `uv_close` in `Close` or in `OnWriteComplete`, which deletes the connection.
  deletes :
      (s : System) (before after : List TcpConnection) (c : TcpConnection) (now : ℕ)
      → s.conns ≡ before ++ c ∷ after
      → has_closed c ≡ true
      → Step uv s (record s {
        server = (on_close (tcp_class uv) now s.server c).0;
        conns = before ++ after;
      })

pub data Reach (uv : Uv) (s : System) : System → Type 0 where
  at_start : Reach uv s s
  and_then : {t u : System} → Reach uv s t → Step uv t u → Reach uv s u

-- A server without connections.
abbrev pub idle : TcpServer → System
idle server = record { server = server; conns = []; total = 0 }
