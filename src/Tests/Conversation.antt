-- ===== src/Tests/Conversation.antt =====
-- A conversation with example/echo_server.cpp: a client is greeted, sends two bytes, and the writes of
-- the greeting and of the answer end.
use libuv_server.Prelude.{
  ℕ, ◌≡◌, refl, false, some, [], ◌∷◌, ◌++◌, pos, negsuc, arith, Bytes, codes,
}
use libuv_server.Uv.{Uv, accepted, sent, closes, queued, message}
use libuv_server.Tcp.State.{TcpConnection, TcpServer, make_connection}
use libuv_server.Tcp.Connection.{
  on_data_received, on_message, on_write_complete, finish_graceful, try_send, write_front, send,
  serve, start_heartbeat,
}
use libuv_server.Tcp.Connection.Accepting.{send_all}
use libuv_server.WebSocket.Handshake.{search_from}
use libuv_server.Tcp.Connection.History.{Driven}
use libuv_server.Tcp.Server.{tcp_class, on_connection, on_new_connection, count_opened}
use libuv_server.Echo.{tcp_server, answer}
use libuv_server.Echo.Answers.{IsTcpEcho}
use libuv_server.Echo.Conversation.{greeting, answers, begins, hears, writes}
use libuv_server.Echo.Conversation.Served.{Conversation-answered}

abbrev uv_works : Uv
uv_works = record { write_result = λ calls bytes. pos 0; ecanceled = negsuc 124 }

abbrev counted : TcpServer
counted = record tcp_server { conn_id_counter = 1 }

abbrev greeted : TcpConnection
greeted =
    (on_new_connection (tcp_class uv_works) 5 counted (
      start_heartbeat counted 5
        (record (make_connection 5) { ip = codes "127.0.0.1"; port = 80; conn_id = 0 }))).1

abbrev heard : TcpConnection
heard = record greeted {
  calls = queued (codes "hi") ∷ message (codes "hi") ∷ greeted.calls;
  send_queue = codes "hi" ∷ [];
  last_active_time = 6;
}

abbrev done : Driven
done = record {
  conn = on_write_complete uv_works 8 (on_write_complete uv_works 7 heard (pos 0)) (pos 0);
  reported = 2;
}

-- The settings of the echo server.
abbrev echo : IsTcpEcho tcp_server
echo = record {
  on_open = refl;
  on_message = refl;
  no_protocol = refl;
  limit = refl;
  interval = refl;
}

Conversation-answered_example :
    ((s : TcpServer) (now : ℕ) (bytes : Bytes)
      → IsTcpEcho s
      → (c' : TcpConnection) × (on_data_received uv_works s now done.conn bytes ≡ some c'))
    × (closes done.conn.calls ≡ 0)
    × (accepted done.conn.calls ≡ greeting ∷ answers (codes "hi" ∷ []))
    × (sent done.conn.calls ++ done.conn.send_queue ≡ greeting ∷ answers (codes "hi" ∷ []))
    × (done.conn.is_writing ≡ false → sent done.conn.calls ≡ greeting ∷ answers (codes "hi" ∷ []))
unfolding on_connection on_new_connection count_opened start_heartbeat serve send try_send
    write_front on_data_received on_message answer finish_graceful on_write_complete send_all
    search_from
Conversation-answered_example =
    Conversation-answered uv_works {d = done} (λ calls bytes. refl)
      (writes 8
        (writes 7
          (hears tcp_server 6 (codes "hi") heard
            (begins 5 (pos 0) (pos 0) (codes "127.0.0.1", 80) tcp_server _ greeted _ echo refl) echo
            (omega arith) refl)
          (omega arith))
        (omega arith))
