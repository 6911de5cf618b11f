-- ===== src/Tcp/Connection/Flushed.antt =====
-- src/uv_net/tcp_connection.cpp: what was accepted before a close is sent before the handle is closed.
use libuv_server.Prelude.{ℕ, suc, ◌≡◌, false, ◌||◌, List, pos, length, if◌then◌else◌, Bytes}
use libuv_server.Uv.{Uv, Calls, sent, accepted, closes}
use libuv_server.Tcp.State.{TcpConnection, TcpServer}
use libuv_server.Tcp.Connection.{close}
use libuv_server.Tcp.Connection.History.{Driven, Reach, fresh}
use libuv_server.Tcp.Connection.Closing.{complete_all}

-- How many writes libuv reports until a connection that is closed now has sent all it accepted.
abbrev pub left : TcpConnection → ℕ
left c = if c.is_writing then suc (length c.send_queue) else 0

module _ (uv : Uv)
    (works : (calls : Calls) (bytes : Bytes) → uv.write_result calls bytes ≡ pos 0) where
  module _ (server : TcpServer) (start : ℕ) (times : List ℕ) (d : Driven)
      (r : Reach uv server (fresh start) d)
      (o : (d.conn.is_closing || d.conn.is_closing_gracefully) ≡ false) where
    abbrev IsFlushed : Type 0
    IsFlushed =
        let c' = complete_all uv times (close d.conn) in
        ((n : ℕ) × Reach uv server (fresh start) (record { conn = c'; reported = n }))
        × (sent c'.calls ≡ accepted d.conn.calls)
        × (closes c'.calls ≡ 1)
