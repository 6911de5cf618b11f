-- ===== src/Tcp/Server/System/Callbacks.antt =====
-- src/uv_net/tcp_server.cpp: what the callbacks leave of a server's fields and of a connection's id.
use libuv_server.Prelude.{
  ℕ, ◌+◌, ◌%◌, ◌^◌, ◌<◌, ◌≡◌, refl, Option-cases, inl, inr, some, none, ◌∷◌, ℤ, arith, Bytes,
}
use libuv_server.BufferPool.{release_buffer}
use libuv_server.Uv.{Uv, opened}
use libuv_server.Tcp.State.{TcpConnection, TcpServer, make_connection, peer}
use libuv_server.Tcp.Connection.{start_heartbeat, on_data_received}
use libuv_server.Tcp.Connection.Identity
use libuv_server.Tcp.Server.{
  SocketOptions, tcp_class, count_opened, on_new_connection, on_connection, on_read,
}
use libuv_server.Tcp.Server.System.{Action, sends, ends, times_out, reports}

pub Action-HasId :
    {uv : Uv} {server : TcpServer} {c c' : TcpConnection} {i : ℕ}
    → Action uv server c c'
    → c.conn_id ≡ i
    → c'.conn_id ≡ i
Action-HasId {uv} {server} (sends c now bytes) v = Identity.send-HasId uv server now c bytes v
Action-HasId (ends c) v = Identity.close-HasId c v
Action-HasId {server} (times_out c now) v = Identity.on_heartbeat_timeout-HasId server now c v
Action-HasId {uv} (reports c now status) v = Identity.on_write_complete-HasId uv now c status v

module _ (uv : Uv) where
  on_new_connection-conn_id :
      (now : ℕ) (s : TcpServer) (c : TcpConnection)
      → (on_new_connection (tcp_class uv) now s c).1.conn_id ≡ c.conn_id
  unfolding on_new_connection
  on_new_connection-conn_id now s c = elim (Option-cases s.on_open) [
    | inl e ↦ rw (e, on_new_connection)
    | inr (callback, e) ↦
        rw (e, on_new_connection)
          (Identity.serve-HasId uv (count_opened s) now (callback (peer c))
            (record c { calls = opened ∷ c.calls }) refl)
  ]

  on_new_connection-server :
      (now : ℕ) (s : TcpServer) (c : TcpConnection)
      → (on_new_connection (tcp_class uv) now s c).0 ≡ count_opened s
  unfolding on_new_connection
  on_new_connection-server now s c = refl

  -- What the server becomes where it takes a connection.
  pub record IsTaken (s server : TcpServer) (c : TcpConnection) : Type 0 where
    pub same_config : server.config ≡ s.config
    pub same_pool : server.buffer_pool ≡ s.buffer_pool
    pub below : s.current_connections < s.config.max_connections
    pub one_more : server.current_connections ≡ (s.current_connections + 1) % 2 ^ 64
    pub next_id : server.conn_id_counter ≡ (s.conn_id_counter + 1) % 2 ^ 32
    pub given_id : c.conn_id ≡ s.conn_id_counter

  pub on_connection-IsTaken :
      (now : ℕ) (status result : ℤ) (from : Bytes × ℕ) (s server : TcpServer) (c : TcpConnection)
      (options : SocketOptions)
      → on_connection (tcp_class uv) now status result from s ≡ (server, some (c, options))
      → IsTaken s server c
  unfolding on_connection count_opened
  on_connection-IsTaken now status result (ip, port) s server c options e = ground (
    arith,
    on_new_connection-server now counted (start_heartbeat counted now conn),
    on_new_connection-conn_id now counted (start_heartbeat counted now conn),
    Identity.start_heartbeat-HasId {i = s.conn_id_counter} counted now conn refl,
  )
    where
      counted : TcpServer
      counted = record s { conn_id_counter = (s.conn_id_counter + 1) % 2 ^ 32 }

      conn : TcpConnection
      conn = record (make_connection now) { ip = ip; port = port; conn_id = s.conn_id_counter }

  pub on_connection-refuses :
      (now : ℕ) (status result : ℤ) (from : Bytes × ℕ) (s server : TcpServer)
      → on_connection (tcp_class uv) now status result from s ≡ (server, none)
      → server ≡ s
  unfolding on_connection
  on_connection-refuses now status result from s server e = ground arith

  pub on_read-keeps :
      (now : ℕ) (nread : ℤ) (bytes : Bytes) (buffer : ℕ) (s server : TcpServer)
      (c c' : TcpConnection)
      → on_read (tcp_class uv) now nread bytes buffer s c ≡ some (server, c')
      → (server ≡ record s { buffer_pool = release_buffer s.buffer_pool buffer })
        × (c'.conn_id ≡ c.conn_id)
  unfolding on_read
  on_read-keeps now nread bytes buffer s server c c' e =
      elim (Option-cases (on_data_received uv s now c bytes)) [
        | inl n ↦ ground (arith, n)
        | inr (d, n) ↦ ground (
          arith,
          n,
          Identity.on_data_received-HasId {i = c.conn_id} uv s now c bytes {c' = d} refl n,
        )
      ]
