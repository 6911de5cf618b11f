-- ===== src/Tcp/Connection/Queued.antt =====
-- src/uv_net/tcp_connection.cpp: the order of what a connection sends and the bound of its queue, whatever
-- libuv reports and however often.
use libuv_server.Prelude.{
  ℕ, ◌≤◌, ◌≡◌, refl, false, some, List, [], ◌∷◌, ◌++◌, append_assoc, ℤ, arith, length,
  length-append, Bytes, Option-cases, inl, inr,
}
use libuv_server.Connection.{Request, send_bytes, close_it}
use libuv_server.Uv.{Uv, accepted, sent, queued, message}
use libuv_server.Tcp.State.{TcpConnection, TcpServer, peer}
use libuv_server.Tcp.Connection.{
  start_heartbeat, close, write_front, try_send, send, finish_graceful, on_write_complete,
  on_heartbeat_timeout, serve, on_message, on_data_received,
}
use libuv_server.Tcp.Connection.Rules.{on_data_received_rule}

-- What was accepted went to `uv_write` in order, but for the entries that wait, `limit` at most.
pub record IsQueued (limit : ℕ) (c : TcpConnection) : Type 0 where
  pub fifo : accepted c.calls ≡ sent c.calls ++ c.send_queue
  pub bounded : length c.send_queue ≤ limit

module _ {limit : ℕ} where
  pub start_heartbeat-IsQueued :
      (server : TcpServer) (now : ℕ) (c : TcpConnection)
      → IsQueued limit c
      → IsQueued limit (start_heartbeat server now c)
  unfolding start_heartbeat
  start_heartbeat-IsQueued server now c v = ground arith

  pub close-IsQueued : (c : TcpConnection) → IsQueued limit c → IsQueued limit (close c)
  unfolding close
  close-IsQueued c v = ground arith

  pub on_heartbeat_timeout-IsQueued :
      (server : TcpServer) (now : ℕ) (c : TcpConnection)
      → IsQueued limit c
      → IsQueued limit (on_heartbeat_timeout server now c)
  unfolding on_heartbeat_timeout
  on_heartbeat_timeout-IsQueued server now c v = ground (arith, close-IsQueued c v)

  write_front-IsQueued :
      (uv : Uv) (queue : List Bytes) (c : TcpConnection)
      → c.send_queue ≡ queue
      → IsQueued limit c
      → IsQueued limit (write_front uv queue c)
  unfolding write_front
  write_front-IsQueued uv [] c q v = v
  write_front-IsQueued uv (front ∷ rest) c q v =
      ground (arith, append_assoc (sent c.calls) (front ∷ []) rest)

  try_send-IsQueued :
      (uv : Uv) (c : TcpConnection) → IsQueued limit c → IsQueued limit (try_send uv c)
  unfolding try_send
  try_send-IsQueued uv c v = ground (arith, write_front-IsQueued uv c.send_queue c refl v)

  pub on_write_complete-IsQueued :
      (uv : Uv) (now : ℕ) (c : TcpConnection) (status : ℤ)
      → IsQueued limit c
      → IsQueued limit (on_write_complete uv now c status)
  unfolding on_write_complete finish_graceful
  on_write_complete-IsQueued uv now c status v = ground (
    arith,
    close-IsQueued c v,
    try_send-IsQueued uv (record c { is_writing = false; last_active_time = now })
        (record { fifo = v.fifo; bounded = v.bounded }),
  )

  pub send-IsQueued :
      (uv : Uv) (server : TcpServer) (now : ℕ) (c : TcpConnection) (bytes : Bytes)
      → server.config.max_send_queue_size ≡ limit
      → IsQueued limit c
      → IsQueued limit (send uv server now c bytes)
  unfolding send
  send-IsQueued uv server now c bytes e v = ground (
    arith,
    e,
    length-append c.send_queue (bytes ∷ []),
    append_assoc (sent c.calls) c.send_queue (bytes ∷ []),
    try_send-IsQueued uv (record c {
      send_queue = c.send_queue ++ bytes ∷ [];
      calls = queued bytes ∷ c.calls;
      last_active_time = now;
    }),
  )

module _ {limit : ℕ} (uv : Uv) (server : TcpServer) (now : ℕ)
    (e : server.config.max_send_queue_size ≡ limit) where
  pub serve-IsQueued :
      (requests : List Request) (c : TcpConnection)
      → IsQueued limit c
      → IsQueued limit (serve uv server now requests c)
  unfolding serve
  serve-IsQueued [] c v = v
  serve-IsQueued (send_bytes bytes ∷ rest) c v =
      serve-IsQueued rest _ (send-IsQueued uv server now c bytes e v)
  serve-IsQueued (close_it ∷ rest) c v = serve-IsQueued rest _ (close-IsQueued c v)

  on_message-IsQueued :
      (c : TcpConnection) (bytes : Bytes)
      → IsQueued limit c
      → IsQueued limit (on_message uv server now c bytes)
  unfolding on_message
  on_message-IsQueued c bytes v = elim (Option-cases server.on_message) [
    | inl n ↦ rw (n, on_message) v
    | inr (callback, n) ↦
        rw (n, on_message)
          (serve-IsQueued (callback (peer c) bytes) (record c { calls = message bytes ∷ c.calls })
            (record { fifo = v.fifo; bounded = v.bounded }))
  ]

  pub on_data_received-IsQueued :
      (c : TcpConnection) (bytes : Bytes) {c' : TcpConnection}
      → IsQueued limit c
      → on_data_received uv server now c bytes ≡ some c'
      → IsQueued limit c'
  on_data_received-IsQueued c bytes v ran =
      on_data_received_rule uv server now (IsQueued limit) on_message-IsQueued
        (λ c b v. record { fifo = v.fifo; bounded = v.bounded }) close-IsQueued c bytes
        (record { fifo = v.fifo; bounded = v.bounded }) ran
