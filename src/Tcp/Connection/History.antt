-- ===== src/Tcp/Connection/History.antt =====
-- src/uv_net/tcp_connection.cpp: a connection over any history of calls and callbacks. libuv reports
-- each write that it took on once, and may read the end of the stream or an error, where the server
-- closes the handle with no callback.
use libuv_server.Prelude.{ℕ, suc, ◌<◌, ◌≡◌, refl, ◌∷◌, some, arith, ℤ, Bytes}
use libuv_server.Uv.{Uv, writes_begun, close_bare}
use libuv_server.Tcp.State.{TcpConnection, TcpServer, make_connection}
use libuv_server.Tcp.Connection.{
  start_heartbeat, close, send, on_write_complete, on_heartbeat_timeout, on_data_received,
}
use libuv_server.Tcp.Connection.Invariant.{
  IsConsistent, queue_limit, make_connection-IsConsistent, start_heartbeat-IsConsistent,
  close-IsConsistent, send-IsConsistent, on_write_complete-IsConsistent,
  on_heartbeat_timeout-IsConsistent, on_data_received-IsConsistent,
}

-- A connection, and how many of its writes were reported back.
pub record Driven : Type 0 where
  pub conn : TcpConnection
  pub reported : ℕ

pub data Step (uv : Uv) (server : TcpServer) : Driven → Driven → Type 0 where
  starts :
      (d : Driven) (now : ℕ)
      → Step uv server d (record d { conn = start_heartbeat server now d.conn })
  sends :
      (d : Driven) (now : ℕ) (bytes : Bytes)
      → Step uv server d (record d { conn = send uv server now d.conn bytes })
  ends : (d : Driven) → Step uv server d (record d { conn = close d.conn })
  times_out :
      (d : Driven) (now : ℕ)
      → Step uv server d (record d { conn = on_heartbeat_timeout server now d.conn })
  receives :
      (d : Driven) (now : ℕ) (bytes : Bytes) (c : TcpConnection)
      → on_data_received uv server now d.conn bytes ≡ some c
      → Step uv server d (record d { conn = c })
  reads_end :
      (d : Driven)
      → Step uv server d (record d { conn = record (d.conn) { calls = close_bare ∷ d.conn.calls } })
  reports :
      (d : Driven) (now : ℕ) (status : ℤ)
      → d.reported < writes_begun d.conn.calls
      → Step uv server d
          (record { conn = on_write_complete uv now d.conn status; reported = suc d.reported })

pub data Reach (uv : Uv) (server : TcpServer) (s : Driven) : Driven → Type 0 where
  here : Reach uv server s s
  next : {t u : Driven} → Reach uv server s t → Step uv server t u → Reach uv server s u

-- A new connection.
abbrev pub fresh : ℕ → Driven
fresh now = record { conn = make_connection now; reported = 0 }

module _ (uv : Uv) (server : TcpServer) where
  Step-IsConsistent :
      {s t : Driven}
      → Step uv server s t
      → IsConsistent (queue_limit server) s.reported s.conn
      → IsConsistent (queue_limit server) t.reported t.conn
  Step-IsConsistent (starts d now) v = start_heartbeat-IsConsistent server now v
  Step-IsConsistent (sends d now bytes) v = send-IsConsistent uv server now d.conn bytes refl v
  Step-IsConsistent (ends d) v = close-IsConsistent v
  Step-IsConsistent (times_out d now) v = on_heartbeat_timeout-IsConsistent server now v
  Step-IsConsistent (receives d now bytes c e) v =
      on_data_received-IsConsistent uv server now d.conn bytes v e
  Step-IsConsistent (reads_end d) v = ground arith
  Step-IsConsistent (reports d now status h) v =
      on_write_complete-IsConsistent uv now d.conn status h v

  -- Whatever a connection goes through from its creation, ends of the stream and errors of reads
  -- included: what `Send` accepted was given to `uv_write` in order, once each, whether `uv_write` takes
  -- it or not, but for the entries that wait in the queue; the queue keeps within the configured limit;
  -- at most one write is in flight; `uv_close` is called with the callback that deletes the connection
  -- exactly once if the connection has ended by its own closing and not before; an immediate close
  -- leaves nothing unsent; and bytes wait only behind a write or in a graceful close. The `uv_close`
  -- that the server makes with no callback, where a read gives no data, is not counted.
  pub Reach-IsConsistent :
      (now : ℕ) {d : Driven}
      → Reach uv server (fresh now) d
      → IsConsistent (queue_limit server) d.reported d.conn
  Reach-IsConsistent now here = make_connection-IsConsistent now refl
  Reach-IsConsistent now (next r st) = Step-IsConsistent st (Reach-IsConsistent now r)
