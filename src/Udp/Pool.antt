-- ===== src/Udp/Pool.antt =====
-- src/uv_net/udp_server.cpp: the read buffers of the server over any series of receptions.
use libuv_server.Prelude.{Option, List, [], ◌∷◌, ℤ, Bytes}
use libuv_server.Config.{ServerConfig}
use libuv_server.BufferPool.Rounds.{IsIdle, make_pool-IsIdle, round-IsIdle}
use libuv_server.Udp.{SockAddr, UdpServer, make_server, on_alloc, on_recv}

-- What libuv reports of one reception.
pub record Reception : Type 0 where
  pub nread : ℤ
  pub bytes : Bytes
  pub addr : Option SockAddr

-- libuv asks for a buffer, and reports what it received into it, before it asks again.
pub receive_all : Bytes → List Reception → UdpServer → UdpServer
receive_all ip_buf [] s = s
receive_all ip_buf (r ∷ rs) s =
    receive_all ip_buf rs (on_recv ip_buf r.nread r.bytes (on_alloc s).0.0 r.addr (on_alloc s).1).0

receive_all-IsIdle :
    (ip_buf : Bytes) (rs : List Reception) (s : UdpServer)
    → IsIdle s.buffer_pool
    → IsIdle (receive_all ip_buf rs s).buffer_pool
unfolding receive_all on_alloc on_recv
receive_all-IsIdle ip_buf [] s h = h
receive_all-IsIdle ip_buf (r ∷ rs) s h =
    receive_all-IsIdle ip_buf rs _ (round-IsIdle s.buffer_pool h)

-- Whatever a new server receives, errors included: every buffer goes back to the pool, and one
-- buffer serves for all receptions.
pub one_buffer_suffices :
    (ip_buf : Bytes) (rs : List Reception) (config : ServerConfig)
    → IsIdle (receive_all ip_buf rs (make_server config)).buffer_pool
one_buffer_suffices ip_buf rs config =
    receive_all-IsIdle ip_buf rs (make_server config) (make_pool-IsIdle config.read_buffer_size)
