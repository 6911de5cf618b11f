-- ===== src/Tcp/Connection/Identity.antt =====
-- src/uv_net/tcp_connection.cpp: no operation changes the id of a connection.
use libuv_server.Prelude.{
  ℕ, ◌≡◌, some, List, [], ◌∷◌, ◌++◌, false, arith, ℤ, Bytes, Option-cases, inl, inr,
}
use libuv_server.Connection.{Request, send_bytes, close_it}
use libuv_server.Uv.{Uv, queued}
use libuv_server.Tcp.State.{TcpConnection, TcpServer, peer}
use libuv_server.Tcp.Connection.{
  start_heartbeat, close, write_front, try_send, send, finish_graceful, on_write_complete,
  on_heartbeat_timeout, serve, on_message, on_data_received,
}
use libuv_server.Tcp.Connection.Rules.{on_data_received_rule}

abbrev pub HasId : ℕ → TcpConnection → Type 0
HasId i c = c.conn_id ≡ i

module _ {i : ℕ} where
  pub start_heartbeat-HasId :
      (server : TcpServer) (now : ℕ) (c : TcpConnection)
      → HasId i c
      → HasId i (start_heartbeat server now c)
  unfolding start_heartbeat
  start_heartbeat-HasId server now c v = ground arith

  pub close-HasId : (c : TcpConnection) → HasId i c → HasId i (close c)
  unfolding close
  close-HasId c v = ground arith

  pub on_heartbeat_timeout-HasId :
      (server : TcpServer) (now : ℕ) (c : TcpConnection)
      → HasId i c
      → HasId i (on_heartbeat_timeout server now c)
  unfolding on_heartbeat_timeout
  on_heartbeat_timeout-HasId server now c v = ground (arith, close-HasId c v)

  write_front-HasId :
      (uv : Uv) (queue : List Bytes) (c : TcpConnection)
      → HasId i c
      → HasId i (write_front uv queue c)
  unfolding write_front
  write_front-HasId uv [] c v = v
  write_front-HasId uv (front ∷ rest) c v = ground arith

  try_send-HasId : (uv : Uv) (c : TcpConnection) → HasId i c → HasId i (try_send uv c)
  unfolding try_send
  try_send-HasId uv c v = ground (arith, write_front-HasId uv c.send_queue c v)

  pub send-HasId :
      (uv : Uv) (server : TcpServer) (now : ℕ) (c : TcpConnection) (bytes : Bytes)
      → HasId i c
      → HasId i (send uv server now c bytes)
  unfolding send
  send-HasId uv server now c bytes v = ground (
    arith,
    try_send-HasId uv
        (record c {
          send_queue = c.send_queue ++ bytes ∷ [];
          calls = queued bytes ∷ c.calls;
          last_active_time = now;
        })
        v,
  )

  pub on_write_complete-HasId :
      (uv : Uv) (now : ℕ) (c : TcpConnection) (status : ℤ)
      → HasId i c
      → HasId i (on_write_complete uv now c status)
  unfolding on_write_complete finish_graceful
  on_write_complete-HasId uv now c status v = ground (
    arith,
    close-HasId c v,
    try_send-HasId uv (record c { is_writing = false; last_active_time = now }) v,
  )

  pub serve-HasId :
      (uv : Uv) (server : TcpServer) (now : ℕ) (requests : List Request) (c : TcpConnection)
      → HasId i c
      → HasId i (serve uv server now requests c)
  unfolding serve
  serve-HasId uv server now [] c v = v
  serve-HasId uv server now (send_bytes bytes ∷ rest) c v =
      serve-HasId uv server now rest _ (send-HasId uv server now c bytes v)
  serve-HasId uv server now (close_it ∷ rest) c v =
      serve-HasId uv server now rest _ (close-HasId c v)

  on_message-HasId :
      (uv : Uv) (server : TcpServer) (now : ℕ) (c : TcpConnection) (bytes : Bytes)
      → HasId i c
      → HasId i (on_message uv server now c bytes)
  unfolding on_message
  on_message-HasId uv server now c bytes v = elim (Option-cases server.on_message) [
    | inl e ↦ rw (e, on_message) v
    | inr (callback, e) ↦
        rw (e, on_message) (serve-HasId uv server now (callback (peer c) bytes) _ v)
  ]

  pub on_data_received-HasId :
      (uv : Uv) (server : TcpServer) (now : ℕ) (c : TcpConnection) (bytes : Bytes)
      {c' : TcpConnection}
      → HasId i c
      → on_data_received uv server now c bytes ≡ some c'
      → HasId i c'
  on_data_received-HasId uv server now c bytes v e =
      on_data_received_rule uv server now (HasId i) (on_message-HasId uv server now) (λ c b v. v)
        close-HasId c bytes v e
