-- ===== src/Echo/Conversation.antt =====
-- example/echo_server.cpp: the conversation of a TCP client with the echo server.
pub mod Served
use libuv_server.Prelude.{
  ℕ, zero, suc, ◌+◌, ◌*◌, ◌≤◌, ◌<◌, ◌^◌, ◌%◌, ◌≡◌, refl, sym, ap, ◌∙◌, false, none, some, List, [],
  ◌∷◌, ◌++◌, ℤ, pos, arith, Option-cases, inl, inr, append_assoc, append-nil, length, take, Bytes,
  codes,
}
use mathlib.Core.Path.{subst}
use libuv_server.Uv.{Uv, Calls, accepted, sent, closes, writes_begun, message, opened, queued}
use libuv_server.Tcp.State.{TcpConnection, TcpServer, make_connection, peer}
use libuv_server.Tcp.Connection.{
  on_message, serve, send, on_data_received, on_write_complete, on_heartbeat_timeout,
  start_heartbeat, try_send, write_front, finish_graceful,
}
use libuv_server.Tcp.Connection.Accepting.{IsOpen, send_all, serve_accepts}
use libuv_server.Tcp.Connection.Invariant.{
  IsConsistent, make_connection-IsConsistent, start_heartbeat-IsConsistent, serve-IsConsistent,
  on_write_complete-IsConsistent, on_data_received-IsConsistent,
}
use libuv_server.Tcp.Connection.Delivery.{serve-SameInput}
use libuv_server.Tcp.Connection.History.{Driven}
use libuv_server.Tcp.Server.{
  SocketOptions, tcp_class, on_connection, on_new_connection, count_opened,
}
use libuv_server.Echo.{answer, tcp_on_open, tcp_on_message}
use libuv_server.Echo.Answers.{IsTcpEcho, echo_accepted}

-- What the server greets a client with, and what it answers to reads of these bytes.
abbrev pub greeting : Bytes
greeting = take 22 (codes "Welcome! Type something.\n")

abbrev pub answers : List Bytes → List Bytes
answers [] = []
answers (bytes ∷ texts) = answer bytes ++ answers texts

-- The connection of a client whose reads had these bytes, in order. The server takes the client,
-- data comes in while the queue has room for an answer, writes end well, and the heartbeat runs out
-- within two minutes of the last activity; in any order, and whatever the server's counters are.
pub data Conversation (uv : Uv) : List Bytes → Driven → Type 0 where
  begins :
      (now : ℕ) (status result : ℤ) (from : Bytes × ℕ) (s server : TcpServer) (c : TcpConnection)
      (options : SocketOptions)
      → IsTcpEcho s
      → on_connection (tcp_class uv) now status result from s ≡ (server, some (c, options))
      → Conversation uv [] (record { conn = c; reported = 0 })
  hears :
      {texts : List Bytes} {d : Driven} (s : TcpServer) (now : ℕ) (bytes : Bytes)
      (c : TcpConnection)
      → Conversation uv texts d
      → IsTcpEcho s
      → length d.conn.send_queue ≤ 899
      → on_data_received uv s now d.conn bytes ≡ some c
      → Conversation uv (texts ++ bytes ∷ []) (record d { conn = c })
  writes :
      {texts : List Bytes} {d : Driven} (now : ℕ)
      → Conversation uv texts d
      → d.reported < writes_begun d.conn.calls
      → Conversation uv texts
          (record { conn = on_write_complete uv now d.conn (pos 0); reported = suc d.reported })
  waits :
      {texts : List Bytes} {d : Driven} (s : TcpServer) (now : ℕ)
      → Conversation uv texts d
      → IsTcpEcho s
      → d.conn.last_active_time ≤ now
      → now ≤ d.conn.last_active_time + 120000
      → now < 2 ^ 64
      → Conversation uv texts (record d { conn = on_heartbeat_timeout s now d.conn })
