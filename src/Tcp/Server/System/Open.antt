-- ===== src/Tcp/Server/System/Open.antt =====
-- src/uv_net/tcp_server.cpp: which connections a server takes in the course of its run, and what
-- `SetConfig` then does to its read buffers.
use libuv_server.Prelude.{
  ℕ, suc, ◌^◌, ◌≤◌, ◌<◌, ◌≡◌, ◌≢◌, ◌↔◌, refl, ap, ◌∙◌, ◌⊎◌, true, false, none, ℤ, pos, is_negative,
  arith, length, Bytes, inl, inr,
}
use libuv_server.Config.{ServerConfig}
use libuv_server.BufferPool.{acquire_buffer}
use libuv_server.BufferPool.Rounds.{IsIdle, round-buffer_size}
use libuv_server.Uv.{Uv}
use libuv_server.Tcp.State.{TcpServer}
use libuv_server.Tcp.Server.{tcp_class, on_connection, on_close, count_closed, on_alloc, set_config}
use libuv_server.Tcp.Server.Limits.{on_connection_lem}
use libuv_server.Tcp.Server.System.{
  System, Step, refuses, accepts, reads, acts, deletes, Reach, at_start, and_then, idle,
}
use libuv_server.Tcp.Server.System.Callbacks.{
  on_connection-IsTaken, on_connection-refuses, on_read-keeps,
}
use libuv_server.Tcp.Server.System.Counted.{Reach-IsCounted}

refused_not_asked :
    (s : TcpServer) (status result : ℤ)
    → (is_negative status ≡ true)
      ⊎ ((s.config.max_connections ≤ s.current_connections) ⊎ (result ≢ pos 0))
    → (is_negative status ≡ false)
      × (result ≡ pos 0)
      × (s.current_connections < s.config.max_connections)
    → ⊥
refused_not_asked s status result (inl e) asked = ground (arith, e, asked)
refused_not_asked s status result (inr (inl e)) asked = omega (arith, e, asked.2)
refused_not_asked s status result (inr (inr e)) asked = e asked.1

module _ (uv : Uv) where
  -- Where a TCP server with nothing counted yet, a limit below 2 ^ 64 and buffers of the configured
  -- size has gone through any sequence of its callbacks and of those of all its connections, it takes
  -- the next connection exactly if libuv reports no error, `uv_accept` succeeds, and fewer
  -- connections than the limit are not deleted; then it counts one more than those, and otherwise
  -- nothing of it changes.
  pub Reach-takes :
      (server : TcpServer) {s : System} (now : ℕ) (status result : ℤ) (from : Bytes × ℕ)
      → server.config.max_connections < 2 ^ 64
      → server.current_connections ≡ 0
      → server.conn_id_counter ≡ 0
      → IsIdle server.buffer_pool
      → server.config.read_buffer_size ≤ server.buffer_pool.buffer_size
      → Reach uv (idle server) s
      → let taken = on_connection (tcp_class uv) now status result from s.server in
        ((taken.1 ≢ none) ↔ (
          (is_negative status ≡ false)
          × (result ≡ pos 0)
          × (length s.conns < server.config.max_connections)))
        × (taken.1 ≢ none → taken.0.current_connections ≡ suc (length s.conns))
        × (taken.1 ≡ none → taken.0 ≡ s.server)
  Reach-takes server {s} now status result from max_fits none_there first pool fits r =
      let v = Reach-IsCounted uv server.config max_fits server refl none_there first pool fits r in
      let most = ap (λ k. k.max_connections) v.configured in
      elim (on_connection_lem (tcp_class uv) now status result from s.server
        (omega (arith, most, max_fits))) [
          | inl t ↦ (
            (λ some_taken. (t.0, t.2, omega (arith, t.1, v.counted, most)), λ asked. t.6),
            λ some_taken. omega (arith, t.3, v.counted),
            λ none_taken. absurd (t.6 none_taken),
          )
          | inr t ↦ (
            (
              λ some_taken. absurd (some_taken t.2),
              λ asked. absurd (
                  refused_not_asked s.server status result t.0
                    (asked.0, asked.1, omega (arith, asked.2, v.counted, most))),
            ),
            λ some_taken. absurd (some_taken t.2),
            λ none_taken. t.1,
          )
        ]

  Step-buffer_size :
      {s t : System}
      → Step uv s t
      → t.server.buffer_pool.buffer_size ≡ s.server.buffer_pool.buffer_size
  unfolding on_alloc on_close count_closed
  Step-buffer_size (refuses s now status result from server e) =
      ap (λ k. k.buffer_pool.buffer_size)
        (on_connection-refuses uv now status result from s.server server e)
  Step-buffer_size (accepts s now status result from server c options e) =
      ap (λ p. p.buffer_size)
        (on_connection-IsTaken uv now status result from s.server server c options e).same_pool
  Step-buffer_size (reads s before after c c' now nread bytes server e ran) =
      ap (λ k. k.buffer_pool.buffer_size) (on_read-keeps uv now nread bytes _ _ server c c' ran).0
      ∙ round-buffer_size s.server.buffer_pool
  Step-buffer_size (acts s before after c c' e a) = refl
  Step-buffer_size (deletes s before after c now e h) = ground arith

  Reach-buffer_size :
      (server : TcpServer) {s : System}
      → Reach uv (idle server) s
      → s.server.buffer_pool.buffer_size ≡ server.buffer_pool.buffer_size
  Reach-buffer_size server at_start = refl
  Reach-buffer_size server (and_then r st) = Step-buffer_size st ∙ Reach-buffer_size server r

  -- Where `SetConfig` is called after any sequence of the callbacks of a TCP server and of all its
  -- connections, libuv is told that it may fill no more bytes than the buffer of the next read has
  -- exactly if the new size is at most the one that the server's buffers had at first.
  pub on_alloc-fits_iff :
      (server : TcpServer) {s : System} (config : ServerConfig)
      → Reach uv (idle server) s
      → let given = on_alloc (tcp_class uv) (set_config s.server config) in
        (given.0.1 ≤ given.1.buffer_pool.buffer_size)
        ↔ (config.read_buffer_size ≤ server.buffer_pool.buffer_size)
  unfolding on_alloc acquire_buffer
  on_alloc-fits_iff server {s} config r = ground (arith, Reach-buffer_size server r)
