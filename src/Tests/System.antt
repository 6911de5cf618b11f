-- ===== src/Tests/System.antt =====
-- src/uv_net/tcp_server.cpp with its connections, and a connection as a channel, at concrete inputs.
use libuv_server.Prelude.{
  ◌<◌, ◌≤◌, ◌≢◌, ◌↔◌, none, false, ◌≡◌, refl, some, [], ◌∷◌, pos, negsuc, arith, All, ◌⊎◌, length,
}
use libuv_server.Config.{default_config, set_read_buffer_size}
use libuv_server.BufferPool.Rounds.{make_pool-IsIdle}
use libuv_server.BufferPool.{make_pool}
use libuv_server.Protocol.{package_error}
use libuv_server.Protocol.FixSize.{fix_size_protocol, parse_package}
use libuv_server.Connection.{CallbackMessage, send_bytes}
use libuv_server.Uv.{Uv}
use libuv_server.Tcp.State.{TcpConnection, TcpServer, make_connection}
use libuv_server.Tcp.Server.{
  make_server, tcp_class, on_alloc, set_config, set_on_message, set_server_protocol, on_connection,
  on_new_connection, count_opened, on_close, count_closed,
}
use libuv_server.Tcp.Server.System.{
  System, Reach, accepts, acts, ends, deletes, at_start, and_then, idle,
}
use libuv_server.Tcp.Server.System
use libuv_server.Tcp.Connection.Queued.{IsQueued}
use libuv_server.Tcp.Server.System.Open.{Reach-takes, on_alloc-fits_iff}
use libuv_server.Tcp.Server.System.Queues.{Reach-IsQueued}
use libuv_server.Tcp.Server.System.Counted.{IsCounted, Reach-IsCounted}
use libuv_server.Tcp.Connection.{send, close, start_heartbeat, stop_heartbeat}
use libuv_server.Tcp.Connection.History.{sends}
use libuv_server.Tcp.Connection.Split.Reads.{receive_all}
use libuv_server.Tcp.Connection.Buffered.{recv_buffer_bound}

-- Every write is taken on.
abbrev uv_works : Uv
uv_works = record { write_result = λ calls bytes. pos 0; ecanceled = negsuc 124 }

abbrev echo : CallbackMessage
echo peer bytes = send_bytes bytes ∷ []

abbrev echo_server : TcpServer
echo_server =
    set_on_message (set_server_protocol (make_server default_config) (some fix_size_protocol))
      (some echo)

-- One connection was accepted and deleted.
abbrev served : System
served = record { server = record echo_server { conn_id_counter = 1 }; conns = []; total = 1 }

abbrev one_taken : TcpConnection
unfolding on_connection on_new_connection count_opened start_heartbeat
one_taken = start_heartbeat echo_server 7 (record (make_connection 7) { ip = []; port = 80 })

abbrev served_run : Reach uv_works (idle echo_server) served
unfolding on_connection on_new_connection count_opened on_close count_closed start_heartbeat close
    stop_heartbeat
served_run =
    and_then
      (and_then
        (and_then at_start (accepts (idle echo_server) 7 (pos 0) (pos 0) ([], 80) _ _ _ refl))
        (acts _ [] [] _ _ refl (ends _)))
      (deletes _ [] [] _ 9 refl refl)

Reach-IsCounted_example : IsCounted default_config served
unfolding make_pool
Reach-IsCounted_example =
    Reach-IsCounted uv_works default_config (omega arith) echo_server {s = served} refl refl refl
      (make_pool-IsIdle 8192) (omega arith) served_run

Reach-takes_example :
    let taken = on_connection (tcp_class uv_works) 10 (pos 0) (pos 0) ([], 81) served.server in
    ((taken.1 ≢ none) ↔ ((false ≡ false) × (pos 0 ≡ pos 0) × (0 < 10000)))
    × (taken.1 ≢ none → taken.0.current_connections ≡ 1)
    × (taken.1 ≡ none → taken.0 ≡ served.server)
unfolding make_pool
Reach-takes_example =
    Reach-takes uv_works echo_server {s = served} 10 (pos 0) (pos 0) ([], 81) (omega arith) refl
      refl (make_pool-IsIdle 8192) (omega arith) served_run

on_alloc-fits_iff_example :
    let given =
      on_alloc
        (tcp_class uv_works)
        (set_config served.server (set_read_buffer_size default_config 65536)) in
    (given.0.1 ≤ given.1.buffer_pool.buffer_size) ↔ (65536 ≤ 8192)
unfolding make_pool
on_alloc-fits_iff_example =
    on_alloc-fits_iff uv_works echo_server {s = served} (set_read_buffer_size default_config 65536)
      served_run

-- A connection was accepted, and two texts were accepted for sending.
abbrev one_taken_server : TcpServer
one_taken_server = record echo_server { current_connections = 1; conn_id_counter = 1 }

abbrev busy : TcpConnection
busy =
    send uv_works one_taken_server 9 (send uv_works one_taken_server 8 one_taken (5 ∷ [])) (6 ∷ [])

Reach-IsQueued_example : All (λ c. IsQueued 1000 c) (busy ∷ [])
unfolding on_connection on_new_connection count_opened start_heartbeat one_taken
Reach-IsQueued_example =
    Reach-IsQueued uv_works echo_server
      {s = record { server = one_taken_server; conns = busy ∷ []; total = 1 }}
      (and_then
        (and_then
          (and_then at_start (accepts (idle echo_server) 7 (pos 0) (pos 0) ([], 80) _ _ _ refl))
          (acts _ [] [] _ _ refl (System.sends _ 8 (5 ∷ []))))
        (acts _ [] [] _ _ refl (System.sends _ 9 (6 ∷ []))))

-- A package and a part of the next.
recv_buffer_bound_example :
    (c' : TcpConnection) × (receive_all uv_works echo_server
        ((1, 0 ∷ 0 ∷ []) ∷ (2, 0 ∷ 5 ∷ 7 ∷ 0 ∷ 0 ∷ []) ∷ [])
        (make_connection 0)
      ≡ some c')
    × ((length c'.recv_buffer < 65535) ⊎ ((parse_package c'.recv_buffer).status ≡ package_error))
recv_buffer_bound_example =
    recv_buffer_bound uv_works echo_server echo ((1, 0 ∷ 0 ∷ []) ∷ (2, 0 ∷ 5 ∷ 7 ∷ 0 ∷ 0 ∷ []) ∷ [])
      (make_connection 0) refl refl refl
