-- ===== src/Echo/Answers.antt =====
-- example/echo_server.cpp: what the servers answer.
use libuv_server.Prelude.{
  ℕ, zero, suc, ◌≤◌, ◌≡◌, refl, ap, ◌∙◌, true, none, some, List, [], ◌∷◌, ◌++◌, ℤ, pos, gtb_ℤ,
  arith, length, Bytes,
}
use libuv_server.Uv.{Uv, Calls, accepted, message}
use libuv_server.Tcp.State.{TcpConnection, TcpServer}
use libuv_server.Tcp.Connection.{on_message, serve, send, on_data_received}
use libuv_server.Tcp.Connection.Accepting.{IsOpen, send_all, serve_accepts}
use libuv_server.Udp.{SockAddr, on_recv}
use libuv_server.Udp.Delivery.{replies, datagram_answered}
use libuv_server.Echo.{
  bulk_from, test_high_throughput, answer, tcp_on_open, tcp_on_message, udp_server,
}

length-bulk_from : (left i : ℕ) → length (bulk_from left i) ≡ left
unfolding bulk_from
length-bulk_from zero i = refl
length-bulk_from (suc left) i = ap suc (length-bulk_from left (suc i))

length-answer : (bytes : Bytes) → length (answer bytes) ≤ 101
unfolding answer test_high_throughput
length-answer bytes = ground (arith, length-bulk_from 100 0)

-- A server with the settings of the TCP echo server, whatever its counters are.
pub record IsTcpEcho (s : TcpServer) : Type 0 where
  pub on_open : s.on_open ≡ some tcp_on_open
  pub on_message : s.on_message ≡ some tcp_on_message
  pub no_protocol : s.server_protocol ≡ none
  pub limit : s.config.max_send_queue_size ≡ 1000
  pub interval : s.config.heartbeat_interval ≡ pos 60000

-- A server with the settings of the TCP echo server answers every read on an open connection, with no
-- bytes left over and at most 899 entries in its queue, where `uv_write` does not fail: all texts of
-- its answer are accepted for sending, in order, the hundred of a bulk test too, and the connection
-- stays open, with no bytes left over.
pub echo_accepted :
    (uv : Uv) (s : TcpServer) (now : ℕ) (c : TcpConnection) (bytes : Bytes)
    → ((calls : Calls) (b : Bytes) → uv.write_result calls b ≡ pos 0)
    → IsTcpEcho s
    → IsOpen c
    → c.recv_buffer ≡ []
    → length c.send_queue ≤ 899
    → (c' : TcpConnection) × (on_data_received uv s now c bytes ≡ some c')
      × (accepted c'.calls ≡ accepted c.calls ++ answer bytes)
      × (IsOpen c')
      × (c'.recv_buffer ≡ [])
unfolding on_data_received on_message serve send
echo_accepted uv s now c bytes works v o empty room = (
  record served { recv_buffer = [] },
  rw (v.no_protocol, on_data_received) (rw (v.on_message, on_message) refl),
  result.0 ∙ ap (λ b. accepted c.calls ++ answer (b ++ bytes)) empty,
  record { not_closing = result.1.not_closing; not_graceful = result.1.not_graceful },
  refl,
)
  where
    texts : List Bytes
    texts = answer (c.recv_buffer ++ bytes)

    called : TcpConnection
    called = record c {
      calls = message (c.recv_buffer ++ bytes) ∷ c.calls;
      last_active_time = now;
      recv_buffer = c.recv_buffer ++ bytes;
    }

    served : TcpConnection
    served = serve uv s now (send_all texts) called

    result : (accepted served.calls ≡ accepted c.calls ++ texts) × IsOpen served
    result =
        serve_accepts uv s now works texts called
          (record { not_closing = o.not_closing; not_graceful = o.not_graceful })
          (omega (arith, v.limit, length-answer (c.recv_buffer ++ bytes)))

-- The UDP server of the example sends a datagram back to its sender, once and as it came.
pub udp_echo :
    (ip_buf : Bytes) (nread : ℤ) (bytes : Bytes) (buffer : ℕ) (a : SockAddr)
    → gtb_ℤ nread 0 ≡ true
    → (on_recv ip_buf nread bytes buffer (some a) udp_server).1 ≡ (bytes, a) ∷ []
unfolding replies
udp_echo ip_buf nread bytes buffer a h =
    datagram_answered ip_buf nread bytes buffer a udp_server _ h refl refl
