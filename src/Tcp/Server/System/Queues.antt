-- ===== src/Tcp/Server/System/Queues.antt =====
-- src/uv_net/tcp_server.cpp: the send queues of all connections of a server.
use libuv_server.Prelude.{
  ℕ, ◌+◌, ◌%◌, ◌^◌, ◌≡◌, refl, ap, ◌∙◌, some, ◌∷◌, ℤ, arith, All, All-split, Bytes, Option-cases,
  inl, inr,
}
use libuv_server.Config.{ServerConfig}
use libuv_server.Uv.{Uv, opened}
use libuv_server.Tcp.State.{TcpConnection, TcpServer, make_connection, peer}
use libuv_server.Tcp.Connection.{start_heartbeat, on_data_received}
use libuv_server.Tcp.Connection.Queued.{
  IsQueued, start_heartbeat-IsQueued, close-IsQueued, on_heartbeat_timeout-IsQueued,
  on_write_complete-IsQueued, send-IsQueued, serve-IsQueued, on_data_received-IsQueued,
}
use libuv_server.Tcp.Server.{
  SocketOptions, tcp_class, count_opened, count_closed, on_connection, on_new_connection, on_close,
  on_alloc, on_read,
}
use libuv_server.Tcp.Server.System.{
  System, Action, sends, ends, times_out, reports, Step, refuses, accepts, reads, acts, deletes,
  Reach, at_start, and_then, idle,
}
use libuv_server.Tcp.Server.System.Callbacks.{
  on_connection-IsTaken, on_connection-refuses, on_read-keeps,
}

-- The queue limit of a configuration.
abbrev most : ServerConfig → ℕ
most config = config.max_send_queue_size

module _ (uv : Uv) (config : ServerConfig) where
  abbrev InOrder : TcpConnection → Type 0
  InOrder c = IsQueued (most config) c

  record IsConfigured (s : System) : Type 0 where
    configured : s.server.config ≡ config
    queues : All InOrder s.conns

  Action-InOrder :
      (server : TcpServer) {c c' : TcpConnection}
      → server.config ≡ config
      → Action uv server c c'
      → InOrder c
      → InOrder c'
  Action-InOrder server e (sends c now bytes) v =
      send-IsQueued uv server now c bytes (ap (λ k. most k) e) v
  Action-InOrder server e (ends c) v = close-IsQueued c v
  Action-InOrder server e (times_out c now) v = on_heartbeat_timeout-IsQueued server now c v
  Action-InOrder server e (reports c now status) v = on_write_complete-IsQueued uv now c status v

  on_new_connection-InOrder :
      (now : ℕ) (s : TcpServer) (c : TcpConnection)
      → s.config ≡ config
      → InOrder c
      → InOrder (on_new_connection (tcp_class uv) now s c).1
  unfolding on_new_connection count_opened
  on_new_connection-InOrder now s c e v = elim (Option-cases s.on_open) [
    | inl n ↦ rw (n, on_new_connection) v
    | inr (callback, n) ↦
        rw (n, on_new_connection)
          (serve-IsQueued uv (count_opened s) now (ap (λ k. most k) e) (callback (peer c))
            (record c { calls = opened ∷ c.calls }) (record { fifo = v.fifo; bounded = v.bounded }))
  ]

  on_connection-InOrder :
      (now : ℕ) (status result : ℤ) (from : Bytes × ℕ) (s server : TcpServer) (c : TcpConnection)
      (options : SocketOptions)
      → s.config ≡ config
      → on_connection (tcp_class uv) now status result from s ≡ (server, some (c, options))
      → InOrder c
  unfolding on_connection
  on_connection-InOrder now status result (ip, port) s server c options e ran =
      let counted = record s { conn_id_counter = (s.conn_id_counter + 1) % 2 ^ 32 } in
      let conn : TcpConnection = record (make_connection now) {
        ip = ip;
        port = port;
        conn_id = s.conn_id_counter;
      } in
      ground (
        arith,
        on_new_connection-InOrder now counted (start_heartbeat counted now conn) e (
            start_heartbeat-IsQueued counted now conn
              (record { fifo = refl; bounded = omega arith })),
      )

  on_read-InOrder :
      (now : ℕ) (nread : ℤ) (bytes : Bytes) (buffer : ℕ) (s server : TcpServer)
      (c c' : TcpConnection)
      → s.config ≡ config
      → on_read (tcp_class uv) now nread bytes buffer s c ≡ some (server, c')
      → InOrder c
      → InOrder c'
  unfolding on_read
  on_read-InOrder now nread bytes buffer s server c c' e ran v =
      elim (Option-cases (on_data_received uv s now c bytes)) [
        | inl n ↦ ground (arith, n)
        | inr (d, n) ↦
            ground (
              arith,
              n,
              on_data_received-IsQueued uv s now (ap (λ k. most k) e) c bytes {c' = d} v n,
            )
      ]

  Step-IsConfigured : {s t : System} → Step uv s t → IsConfigured s → IsConfigured t
  unfolding on_alloc on_close count_closed
  Step-IsConfigured (refuses s now status result from server e) v =
      rw (on_connection-refuses uv now status result from s.server server e)
        (record { configured = v.configured; queues = v.queues })
  Step-IsConfigured (accepts s now status result from server c options e) v = record {
    configured =
        (on_connection-IsTaken uv now status result from s.server server c options e).same_config
        ∙ v.configured;
    queues = (
      on_connection-InOrder now status result from s.server server c options v.configured e,
      v.queues,
    );
  }
  Step-IsConfigured (reads s before after c c' now nread bytes server e ran) v =
      let kept = on_read-keeps uv now nread bytes _ _ server c c' ran in
      let (p, rest, put) = All-split InOrder before after c (rw e at v.queues) in
      record {
        configured = ap (λ k. k.config) kept.0 ∙ v.configured;
        queues = put c' (on_read-InOrder now nread bytes _ _ server c c' v.configured ran p);
      }
  Step-IsConfigured (acts s before after c c' e a) v =
      let (p, rest, put) = All-split InOrder before after c (rw e at v.queues) in
      record {
        configured = v.configured;
        queues = put c' (Action-InOrder s.server v.configured a p);
      }
  Step-IsConfigured (deletes s before after c now e h) v =
      let (p, rest, put) = All-split InOrder before after c (rw e at v.queues) in
      record { configured = ground (arith, v.configured); queues = rest }

-- Whatever order the callbacks of a server and of all its connections come in, and whatever libuv
-- reports: what each connection accepted for sending it gave to `uv_write`, in order and once, but for
-- the entries that wait in its own queue, and these keep within the configured limit. So no connection
-- loses, repeats or reorders what it accepted, and none sends what another accepted.
pub Reach-IsQueued :
    (uv : Uv) (server : TcpServer) {s : System}
    → Reach uv (idle server) s
    → All (λ c. IsQueued server.config.max_send_queue_size c) s.conns
Reach-IsQueued uv server r = (reached r).queues
  where
    reached : {s : System} → Reach uv (idle server) s → IsConfigured uv server.config s
    reached at_start = record { configured = refl; queues = tt }
    reached (and_then r st) = Step-IsConfigured uv server.config st (reached r)
