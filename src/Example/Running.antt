-- ===== src/Example/Running.antt =====
-- example/config_example.cpp and example/config_socket_example.cpp: the servers once the loop runs.
use mathlib.Core.List.{Mem, mem-cons, not-mem-nil}
use mathlib.Core.Logic.Or
use native.Mathlib.Bridge.{le_prop}
use libuv_server.Prelude.{◌^◌, ◌≤◌, ◌<◌, ◌≡◌, refl, ℤ, arith, length, All}
use libuv_server.Config.{ServerConfig, default_config}
use libuv_server.BufferPool.{make_pool}
use libuv_server.BufferPool.Rounds.{IsIdle, make_pool-IsIdle}
use libuv_server.Uv.{Uv}
use libuv_server.Tcp.State.{TcpServer}
use libuv_server.Tcp.Server.{make_server, start_server, destroy_server}
use libuv_server.Tcp.Server.System.{System, Reach, idle}
use libuv_server.Tcp.Server.System.Counted.{Reach-IsCounted}
use libuv_server.Example.{custom_config, config_example, config_socket_example}

-- A server on which nothing happened yet.
record IsNew (s : TcpServer) : Type 0 where
  bounded : s.config.max_connections < 2 ^ 64
  none_there : s.current_connections ≡ 0
  first : s.conn_id_counter ≡ 0
  pool : IsIdle s.buffer_pool
  fits : s.config.read_buffer_size ≤ s.buffer_pool.buffer_size

start_server-IsNew : (bound : ℤ) (s : TcpServer) → IsNew s → IsNew (start_server bound s).0
unfolding start_server
start_server-IsNew bound s v = ground arith

made-IsNew :
    (bound : ℤ) (config : ServerConfig)
    → config.max_connections < 2 ^ 64
    → IsNew (start_server bound (make_server config)).0
unfolding make_pool
made-IsNew bound config h = start_server-IsNew bound (make_server config) (record {
  bounded = h;
  none_there = refl;
  first = refl;
  pool = make_pool-IsIdle config.read_buffer_size;
  fits = omega arith;
})

new_keeps_limits :
    (uv : Uv) (server : TcpServer) {s : System}
    → Reach uv (idle server) s
    → IsNew server
    → (length s.conns ≤ server.config.max_connections)
      × (s.server.config.read_buffer_size ≤ s.server.buffer_pool.buffer_size)
new_keeps_limits uv server r new =
    let v =
      Reach-IsCounted uv server.config new.bounded server refl new.none_there new.first new.pool
        new.fits r in
    (v.limited, v.fits)

-- Every server of config_example.cpp, whatever the calls of `uv_tcp_bind` return and whatever the
-- loop calls: it has no more connections than its own configuration says, and libuv is never told
-- to fill more than its buffers have.
pub example_keeps_limits :
    (uv : Uv) (bound1 bound2 bound3 : ℤ) (server : TcpServer) {s : System}
    → Mem server (config_example bound1 bound2 bound3)
    → Reach uv (idle server) s
    → (length s.conns ≤ server.config.max_connections)
      × (s.server.config.read_buffer_size ≤ s.server.buffer_pool.buffer_size)
unfolding config_example
example_keeps_limits uv bound1 bound2 bound3 server m r =
    Or.elim (hlevel le_prop) (mem-cons.0 m)
      (λ e. new_keeps_limits uv server r (rw e (made-IsNew bound1 default_config (omega arith))))
      (λ m.
        Or.elim (hlevel le_prop) (mem-cons.0 m)
          (λ e. new_keeps_limits uv server r (rw e (made-IsNew bound2 custom_config (omega arith))))
          (λ m.
            Or.elim (hlevel le_prop) (mem-cons.0 m)
              (λ e.
                new_keeps_limits uv server r
                  (rw e (made-IsNew bound3 default_config (omega arith))))
              (λ m. absurd (not-mem-nil m))))

-- Whatever the calls of `uv_tcp_bind` return, no server of config_socket_example.cpp listens any
-- more when its loop runs.
socket_example_is_silent :
    (bound1 bound2 : ℤ) → All (λ s. s.listeners ≡ 0) (config_socket_example bound1 bound2)
unfolding config_socket_example destroy_server
socket_example_is_silent bound1 bound2 = (refl, (refl, tt))
