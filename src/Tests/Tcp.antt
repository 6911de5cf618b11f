-- ===== src/Tests/Tcp.antt =====
-- src/uv_net/tcp_connection.cpp and src/uv_net/tcp_server.cpp at concrete inputs.
use libuv_server.Prelude.{◌≡◌, refl, true, some, [], ◌∷◌, pos, negsuc, arith}
use libuv_server.Config.{default_config}
use libuv_server.Protocol.FixSize.{fix_size_protocol, parse_package}
use libuv_server.Protocol.FixSize.Framing.{fix_size-IsFraming, wrap}
use libuv_server.Connection.{CallbackMessage, send_bytes}
use libuv_server.Uv.{Uv, write, delivered, sent, closes}
use libuv_server.Tcp.State.{TcpConnection, TcpServer, make_connection}
use libuv_server.Tcp.Server.{make_server, set_on_message, set_server_protocol}
use libuv_server.Tcp.Connection.{
  send, try_send, write_front, close, on_data_received, on_write_complete,
}
use libuv_server.Tcp.Connection.Invariant.{IsConsistent, queue_limit}
use libuv_server.Tcp.Connection.History.{
  Driven, sends, ends, reports, here, next, fresh, Reach-IsConsistent,
}
use libuv_server.Tcp.Connection.Stranded.{next_is_refused, failed_write_never_closes}
use libuv_server.Tcp.Connection.Delivery.{on_data_received_total}
use libuv_server.Tcp.Connection.Fragments.{packages_arrive_whole}
use libuv_server.Tcp.Connection.Split.{split_on}
use libuv_server.Tcp.Connection.Split.Reads.{receive_all, receive_all-split}
use libuv_server.Tcp.Connection.Wrapped.{wrap_all, wrapped_messages_arrive, wrap_all-IsPackage}

-- Every write is taken on.
abbrev uv_works : Uv
uv_works = record { write_result = λ calls bytes. pos 0; ecanceled = negsuc 124 }

abbrev echo : CallbackMessage
echo peer bytes = send_bytes bytes ∷ []

abbrev echo_server : TcpServer
echo_server =
    set_on_message (set_server_protocol (make_server default_config) (some fix_size_protocol))
      (some echo)

abbrev one_sent : TcpConnection
unfolding send try_send write_front
one_sent = send uv_works echo_server 1 (make_connection 0) (5 ∷ [])

abbrev one_sent_driven : Driven
one_sent_driven = record { conn = one_sent; reported = 0 }

Reach-IsConsistent_example :
    IsConsistent (queue_limit echo_server) 1 (on_write_complete uv_works 2 one_sent (pos 0))
unfolding send one_sent
Reach-IsConsistent_example =
    Reach-IsConsistent uv_works echo_server 0
      {d = record { conn = on_write_complete uv_works 2 one_sent (pos 0); reported = 1 }}
      (next (next here (sends (fresh 0) 1 (5 ∷ [])))
        (reports one_sent_driven 2 (pos 0) (omega arith)))

wrapped_messages_arrive_example :
    (c' : TcpConnection) × (receive_all uv_works echo_server
        ((1, 0 ∷ 0 ∷ []) ∷ (2, 0 ∷ 6 ∷ 7 ∷ 8 ∷ []) ∷ [])
        (make_connection 0)
      ≡ some c')
    × (delivered c'.calls ≡ wrap (7 ∷ 8 ∷ []) ∷ [])
    × (c'.recv_buffer ≡ [])
unfolding wrap
wrapped_messages_arrive_example =
    wrapped_messages_arrive uv_works echo_server echo
      ((1, 0 ∷ 0 ∷ []) ∷ (2, 0 ∷ 6 ∷ 7 ∷ 8 ∷ []) ∷ []) (make_connection 0) ((7 ∷ 8 ∷ []) ∷ []) refl
      refl (omega arith, tt) refl refl

packages_arrive_whole_example :
    (c' : TcpConnection) × (receive_all uv_works echo_server
        ((1, 0 ∷ 0 ∷ []) ∷ (2, 0 ∷ 6 ∷ 7 ∷ 8 ∷ []) ∷ [])
        (make_connection 0)
      ≡ some c')
    × (delivered c'.calls ≡ wrap (7 ∷ 8 ∷ []) ∷ [])
    × (c'.recv_buffer ≡ [])
unfolding wrap
packages_arrive_whole_example =
    packages_arrive_whole fix_size-IsFraming uv_works echo_server echo
      ((1, 0 ∷ 0 ∷ []) ∷ (2, 0 ∷ 6 ∷ 7 ∷ 8 ∷ []) ∷ []) (make_connection 0)
      (wrap_all ((7 ∷ 8 ∷ []) ∷ [])) refl refl
      (wrap_all-IsPackage ((7 ∷ 8 ∷ []) ∷ []) (omega arith, tt)) refl refl

-- Half a package, then its end and a size out of range.
receive_all-split_example :
    (c' : TcpConnection) × (receive_all uv_works echo_server
        ((1, 0 ∷ 0 ∷ []) ∷ (2, 0 ∷ 5 ∷ 7 ∷ 0 ∷ 0 ∷ 0 ∷ 3 ∷ []) ∷ [])
        (make_connection 0)
      ≡ some c')
    × (delivered c'.calls ≡ (0 ∷ 0 ∷ 0 ∷ 5 ∷ 7 ∷ []) ∷ [])
    × (c'.recv_buffer ≡ 0 ∷ 0 ∷ 0 ∷ 3 ∷ [])
unfolding split_on parse_package
receive_all-split_example =
    receive_all-split uv_works echo_server fix_size-IsFraming refl
      ((1, 0 ∷ 0 ∷ []) ∷ (2, 0 ∷ 5 ∷ 7 ∷ 0 ∷ 0 ∷ 0 ∷ 3 ∷ []) ∷ []) (make_connection 0) refl refl

on_data_received_total_example :
    (c' : TcpConnection) × (on_data_received uv_works
        (make_server default_config)
        3
        (make_connection 0)
        (1 ∷ 2 ∷ [])
      ≡ some c')
on_data_received_total_example =
    on_data_received_total uv_works (make_server default_config) 3 (make_connection 0) (1 ∷ 2 ∷ [])
      (λ protocol e. cc)

-- Two texts were accepted before the close.
abbrev two_sent : Driven
two_sent = record { conn = send uv_works echo_server 2 one_sent (6 ∷ []); reported = 0 }

-- One write is in flight and two entries wait when `uv_write` begins to refuse.
abbrev uv_refuses : Uv
uv_refuses = record { write_result = λ calls bytes. negsuc 31; ecanceled = negsuc 124 }

abbrev two_wait : Driven
two_wait = record {
  conn = record (make_connection 0) {
    is_writing = true;
    send_queue = (1 ∷ []) ∷ (2 ∷ []) ∷ [];
    calls = write (0 ∷ []) (pos 0) ∷ [];
  };
  reported = 0;
}

-- The write ends well, the next is refused, and the user closes after that.
failed_write_never_closes_example :
    let c = on_write_complete uv_refuses 2 two_wait.conn (pos 0) in
    (closes (close c).calls ≡ 0) × (sent (close c).calls ≡ sent c.calls)
failed_write_never_closes_example =
    failed_write_never_closes uv_refuses 2 two_wait echo_server
      {t = record { conn = on_write_complete uv_refuses 2 two_wait.conn (pos 0); reported = 1 }}
      {u = record {
        conn = close (on_write_complete uv_refuses 2 two_wait.conn (pos 0));
        reported = 1;
      }}
      (next_is_refused (pos 0) (1 ∷ []) (2 ∷ []) [] refl refl refl) refl refl refl refl
      (next here (
        ends
          (record { conn = on_write_complete uv_refuses 2 two_wait.conn (pos 0); reported = 1 })))
