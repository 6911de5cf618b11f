-- ===== src/Echo/Main/Heard/Tcp.antt =====
-- src/uv_net/tcp_connection.cpp: no operation of a connection calls `on_open_` or `on_close_`.
use libuv_server.Prelude.{ℕ, refl, false, List, [], ◌∷◌, ◌++◌, arith, Bytes, Option-cases, inl, inr}
use libuv_server.Connection.{Request, send_bytes, close_it}
use libuv_server.Uv.{Uv, queued}
use libuv_server.Tcp.State.{TcpConnection, TcpServer, peer}
use libuv_server.Tcp.Connection.{
  start_heartbeat, close, write_front, try_send, send, finish_graceful, on_write_complete,
  on_heartbeat_timeout, serve, on_message,
}
use libuv_server.Tcp.Connection.Rules.{on_data_received_rule}
use libuv_server.Tcp.Server.{tcp_class}
use libuv_server.Tcp.Server.System.{Action, sends, ends, times_out, reports}
use libuv_server.Echo.Main.Heard.{Heard, IsQuiet}

module _ {a b : ℕ} where
  start_heartbeat-Heard :
      (server : TcpServer) (now : ℕ) (c : TcpConnection)
      → Heard a b c
      → Heard a b (start_heartbeat server now c)
  unfolding start_heartbeat
  start_heartbeat-Heard server now c v = ground arith

  close-Heard : (c : TcpConnection) → Heard a b c → Heard a b (close c)
  unfolding close
  close-Heard c v = ground arith

  write_front-Heard :
      (uv : Uv) (queue : List Bytes) (c : TcpConnection)
      → Heard a b c
      → Heard a b (write_front uv queue c)
  unfolding write_front
  write_front-Heard uv [] c v = v
  write_front-Heard uv (front ∷ rest) c v = ground arith

  try_send-Heard : (uv : Uv) (c : TcpConnection) → Heard a b c → Heard a b (try_send uv c)
  unfolding try_send
  try_send-Heard uv c v = ground (arith, write_front-Heard uv c.send_queue c v)

  send-Heard :
      (uv : Uv) (server : TcpServer) (now : ℕ) (c : TcpConnection) (bytes : Bytes)
      → Heard a b c
      → Heard a b (send uv server now c bytes)
  unfolding send
  send-Heard uv server now c bytes v = ground (
    arith,
    try_send-Heard uv
        (record c {
          send_queue = c.send_queue ++ bytes ∷ [];
          calls = queued bytes ∷ c.calls;
          last_active_time = now;
        })
        v,
  )

  pub Action-Heard :
      {uv : Uv} {server : TcpServer} {c c' : TcpConnection}
      → Action uv server c c'
      → Heard a b c
      → Heard a b c'
  unfolding on_heartbeat_timeout on_write_complete finish_graceful
  Action-Heard {uv} {server} (sends c now bytes) v = send-Heard uv server now c bytes v
  Action-Heard (ends c) v = close-Heard c v
  Action-Heard {server} (times_out c now) v = ground (arith, close-Heard c v)
  Action-Heard {uv} (reports c now status) v = ground (
    arith,
    close-Heard c v,
    try_send-Heard uv (record c { is_writing = false; last_active_time = now }) v,
  )

  serve-Heard :
      (uv : Uv) (server : TcpServer) (now : ℕ) (requests : List Request) (c : TcpConnection)
      → Heard a b c
      → Heard a b (serve uv server now requests c)
  unfolding serve
  serve-Heard uv server now [] c v = v
  serve-Heard uv server now (send_bytes bytes ∷ rest) c v =
      serve-Heard uv server now rest _ (send-Heard uv server now c bytes v)
  serve-Heard uv server now (close_it ∷ rest) c v =
      serve-Heard uv server now rest _ (close-Heard c v)

  on_message-Heard :
      (uv : Uv) (server : TcpServer) (now : ℕ) (c : TcpConnection) (bytes : Bytes)
      → Heard a b c
      → Heard a b (on_message uv server now c bytes)
  unfolding on_message
  on_message-Heard uv server now c bytes v = elim (Option-cases server.on_message) [
    | inl e ↦ rw (e, on_message) v
    | inr (callback, e) ↦
        rw (e, on_message) (serve-Heard uv server now (callback (peer c) bytes) _ v)
  ]

pub tcp_class-IsQuiet : (uv : Uv) → IsQuiet (tcp_class uv)
tcp_class-IsQuiet uv = record {
  new = λ now ip port id. (refl, refl);
  noted = λ c t. refl;
  starts = λ a b s now c v. start_heartbeat-Heard s now c v;
  serves = λ a b s now requests c v. serve-Heard uv s now requests c v;
  receives = λ a b s now c c' bytes ran v.
      on_data_received_rule uv s now (Heard a b) (on_message-Heard uv s now) (λ c bytes v. v)
        (λ c v. close-Heard c v) c bytes v ran;
}
