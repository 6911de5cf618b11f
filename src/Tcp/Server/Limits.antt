-- ===== src/Tcp/Server/Limits.antt =====
-- src/uv_net/tcp_server.cpp: the connection limit, the ids, and the read buffers.
use libuv_server.Prelude.{
  ℕ, suc, ◌+◌, ◌-◌, ◌*◌, ◌%◌, ◌^◌, ◌≤◌, ◌<◌, ◌≡◌, ◌≢◌, refl, true, false, none, some, [], ◌∷◌, ◌⊎◌,
  ℤ, pos, is_negative, gtb_ℤ, to_size, arith, Bytes,
}
use libuv_server.Uv.{Uv, closes, bare_closes, close_bare}
use libuv_server.BufferPool.{make_pool, acquire_buffer, release_buffer}
use libuv_server.Config.{ServerConfig}
use libuv_server.Tcp.State.{TcpConnection, TcpServer}
use libuv_server.Tcp.Connection.{close, on_heartbeat_timeout, stop_heartbeat}
use libuv_server.Tcp.Server.{
  ConnectionClass, tcp_class, count_opened, on_new_connection, on_connection, on_alloc, on_read,
  make_server, set_config,
}

module _ (k : ConnectionClass) where
  -- A connection is taken exactly where the status is no error, the server is below its limit and
  -- `uv_accept` succeeds; then the count grows by one and stays within the limit, the id counter
  -- moves on, and otherwise nothing of the server changes.
  pub on_connection_lem :
      (now : ℕ) (status accepted : ℤ) (from : Bytes × ℕ) (s : TcpServer)
      → s.config.max_connections < 2 ^ 64
      → let result = on_connection k now status accepted from s in
        ((is_negative status ≡ false)
          × (s.current_connections < s.config.max_connections)
          × (accepted ≡ pos 0)
          × (result.0.current_connections ≡ s.current_connections + 1)
          × (result.0.current_connections ≤ result.0.config.max_connections)
          × (result.0.conn_id_counter ≡ (s.conn_id_counter + 1) % 2 ^ 32)
          × (result.1 ≢ none))
        ⊎ (((is_negative status ≡ true)
              ⊎ ((s.config.max_connections ≤ s.current_connections) ⊎ (accepted ≢ pos 0)))
            × (result.0 ≡ s)
            × (result.1 ≡ none))
  unfolding on_connection on_new_connection count_opened
  on_connection_lem now status accepted from s h = ground arith

-- After `SetConfig` with a larger read buffer, libuv is told that it may fill more bytes than the
-- buffers of the pool have.
on_alloc_overruns :
    (k : ConnectionClass) (config config' : ServerConfig)
    → config.read_buffer_size < config'.read_buffer_size
    → let given = on_alloc k (set_config (make_server config) config') in
      given.1.buffer_pool.buffer_size < given.0.1
unfolding on_alloc make_pool acquire_buffer
on_alloc_overruns k config config' h = ground arith

-- A read that gives no data, so the end of the stream too, closes the handle of an idle connection
-- and leaves the count of connections as it is. The heartbeat timer is not stopped: if it runs out
-- with the connection inactive for longer than twice the interval, it closes the handle again.
ended_read_closes_twice :
    (uv : Uv) (now later : ℕ) (nread : ℤ) (bytes : Bytes) (buffer : ℕ) (s : TcpServer)
    (c : TcpConnection)
    → gtb_ℤ nread 0 ≡ false
    → c.is_closing ≡ false
    → c.is_closing_gracefully ≡ false
    → c.is_writing ≡ false
    → c.send_queue ≡ []
    → to_size s.config.heartbeat_interval * 2 % 2 ^ 64
      < (later + 2 ^ 64 - c.last_active_time) % 2 ^ 64
    → (s' : TcpServer) × (c' : TcpConnection) × (on_read (tcp_class uv) now nread bytes buffer s c
        ≡ some (s', c'))
      × (s'.current_connections ≡ s.current_connections)
      × (bare_closes c'.calls ≡ suc (bare_closes c.calls))
      × (closes (on_heartbeat_timeout s' later c').calls ≡ suc (closes c.calls))
unfolding on_read on_heartbeat_timeout close stop_heartbeat
ended_read_closes_twice uv now later nread bytes buffer s c h closing graceful writing queue idle =
    (
      record s { buffer_pool = release_buffer s.buffer_pool buffer },
      record c { calls = close_bare ∷ c.calls },
      ground (arith, h),
      refl,
      refl,
      ground (arith, closing, graceful, writing, queue, idle),
    )
