-- ===== src/Echo/Conversation/Served.antt =====
-- example/echo_server.cpp: what the echo server answers in a conversation.
use libuv_server.Prelude.{
  ℕ, ◌+◌, ◌≤◌, ◌<◌, ◌^◌, ◌%◌, ◌≡◌, refl, sym, ap, ◌∙◌, false, some, List, [], ◌∷◌, ◌++◌, ℤ, pos,
  arith, Option-cases, inl, inr, append_assoc, append-nil, length, Bytes,
}
use mathlib.Core.Path.{subst}
use libuv_server.Uv.{Uv, Calls, accepted, sent, closes, opened}
use libuv_server.Tcp.State.{TcpConnection, TcpServer, make_connection}
use libuv_server.Tcp.Connection.{
  on_data_received, on_write_complete, on_heartbeat_timeout, start_heartbeat, try_send, write_front,
  finish_graceful,
}
use libuv_server.Tcp.Connection.Accepting.{IsOpen, send_all, serve_accepts}
use libuv_server.Tcp.Connection.Invariant.{
  IsConsistent, serve-IsConsistent, on_write_complete-IsConsistent, on_data_received-IsConsistent,
}
use libuv_server.Tcp.Connection.Delivery.{serve-SameInput}
use libuv_server.Tcp.Connection.History.{Driven}
use libuv_server.Tcp.Server.{
  SocketOptions, tcp_class, on_connection, on_new_connection, count_opened,
}
use libuv_server.Echo.{answer}
use libuv_server.Echo.Answers.{IsTcpEcho, echo_accepted}
use libuv_server.Echo.Conversation.{greeting, answers, Conversation, begins, hears, writes, waits}

-- The connection is open, and what it accepted for sending is what the reads ask for.
record IsServed (texts : List Bytes) (d : Driven) : Type 0 where
  open_still : IsOpen d.conn
  nothing_left : d.conn.recv_buffer ≡ []
  answered : accepted d.conn.calls ≡ greeting ∷ answers texts
  consistent : IsConsistent 1000 d.reported d.conn

at_limit :
    {l m reported : ℕ} {c : TcpConnection}
    → l ≡ m
    → IsConsistent l reported c
    → IsConsistent m reported c
at_limit {reported} {c} e v = subst (λ l. IsConsistent l reported c) e v

answers-append :
    (texts : List Bytes) (bytes : Bytes)
    → answers (texts ++ bytes ∷ []) ≡ answers texts ++ answer bytes
answers-append [] bytes = append-nil (answer bytes)
answers-append (t ∷ texts) bytes =
    ap (λ a. answer t ++ a) (answers-append texts bytes)
    ∙ sym (append_assoc (answer t) (answers texts) (answer bytes))

module _ (uv : Uv)
    (works : (calls : Calls) (bytes : Bytes) → uv.write_result calls bytes ≡ pos 0) where
  -- The end of a write changes neither.
  written :
      (now : ℕ) (c : TcpConnection) (queue : List Bytes)
      → IsOpen c
      → c.send_queue ≡ queue
      → let c' = on_write_complete uv now c (pos 0) in
        (accepted c'.calls ≡ accepted c.calls) × (IsOpen c') × (c'.recv_buffer ≡ c.recv_buffer)
  unfolding on_write_complete finish_graceful try_send write_front
  written now c [] o q = ground (arith, o)
  written now c (front ∷ rest) o q = ground (arith, o, works c.calls front)

  -- A new connection is greeted.
  record IsNew (c : TcpConnection) : Type 0 where
    new_open : IsOpen c
    nothing_read : c.recv_buffer ≡ []
    nothing_queued : c.send_queue ≡ []
    nothing_accepted : accepted c.calls ≡ []
    new_consistent : IsConsistent 1000 0 c

  greets :
      (now : ℕ) (s : TcpServer) (c : TcpConnection)
      → IsTcpEcho s
      → IsNew c
      → IsServed [] (record { conn = (on_new_connection (tcp_class uv) now s c).1; reported = 0 })
  unfolding on_new_connection send_all count_opened
  greets now s c v w =
      let called = record c { calls = opened ∷ c.calls } in
      let (more, o) =
        serve_accepts uv (count_opened s) now works (greeting ∷ []) called
          (record { not_closing = w.new_open.not_closing; not_graceful = w.new_open.not_graceful })
          (omega (arith, v.limit, ap length w.nothing_queued)) in
      rw (v.on_open, on_new_connection)
        (record {
          open_still = o;
          nothing_left =
              (serve-SameInput uv (count_opened s) now (send_all (greeting ∷ [])) called).0
              ∙ w.nothing_read;
          answered = more ∙ ap (λ a. a ++ greeting ∷ []) w.nothing_accepted;
          consistent = at_limit v.limit (
              serve-IsConsistent uv (count_opened s) now {reported = 0} (send_all (greeting ∷ []))
                called (at_limit (sym v.limit) (ground (arith, w.new_consistent))));
        })

  -- The connection that the server makes for a client, with its heartbeat running.
  started-IsNew :
      (now : ℕ) (s : TcpServer) (ip : Bytes) (port conn_id : ℕ)
      → IsNew (
          start_heartbeat s now
            (record (make_connection now) { ip = ip; port = port; conn_id = conn_id }))
  unfolding start_heartbeat
  started-IsNew now s ip port conn_id = ground arith

  taken :
      (now : ℕ) (status result : ℤ) (from : Bytes × ℕ) (s server : TcpServer) (c : TcpConnection)
      (options : SocketOptions)
      → IsTcpEcho s
      → on_connection (tcp_class uv) now status result from s ≡ (server, some (c, options))
      → IsServed [] (record { conn = c; reported = 0 })
  unfolding on_connection
  taken now status result (ip, port) s server c options v e =
      let counted = record s { conn_id_counter = (s.conn_id_counter + 1) % 2 ^ 32 } in
      let new = started-IsNew now counted ip port s.conn_id_counter in
      ground (
        arith,
        greets now counted _
            (record {
              on_open = v.on_open;
              on_message = v.on_message;
              no_protocol = v.no_protocol;
              limit = v.limit;
              interval = v.interval;
            })
            new,
      )

  -- A timeout of the heartbeat within two minutes of the last activity changes nothing.
  stays :
      (s : TcpServer) (now : ℕ) (c : TcpConnection)
      → IsTcpEcho s
      → c.last_active_time ≤ now
      → now ≤ c.last_active_time + 120000
      → now < 2 ^ 64
      → on_heartbeat_timeout s now c ≡ c
  unfolding on_heartbeat_timeout
  stays s now c v le soon small = rw v.interval (ground arith)

  Conversation-IsServed :
      {texts : List Bytes} {d : Driven} → Conversation uv texts d → IsServed texts d
  Conversation-IsServed (begins now status result from s server c options v e) =
      taken now status result from s server c options v e
  Conversation-IsServed (hears {texts} {d} s now bytes c t v room e) =
      let w = Conversation-IsServed t in
      let (c', ran, more, o, empty) =
        echo_accepted uv s now d.conn bytes works v w.open_still w.nothing_left room in
      let same : c' ≡ c = cc in
      record {
        open_still = rw same at o;
        nothing_left = rw same at empty;
        answered = rw same at (
            more
            ∙ ap (λ a. a ++ answer bytes) w.answered
            ∙ ap (λ a. greeting ∷ a) (sym (answers-append texts bytes)));
        consistent = at_limit v.limit (
            on_data_received-IsConsistent uv s now {reported = d.reported} d.conn bytes {c' = c}
              (at_limit (sym v.limit) w.consistent) e);
      }
  Conversation-IsServed (writes {texts} {d} now t h) =
      let w = Conversation-IsServed t in
      let (more, o, same) = written now d.conn d.conn.send_queue w.open_still refl in
      record {
        open_still = o;
        nothing_left = same ∙ w.nothing_left;
        answered = more ∙ w.answered;
        consistent = on_write_complete-IsConsistent uv now d.conn (pos 0) h w.consistent;
      }
  Conversation-IsServed (waits {texts} {d} s now t v le soon small) =
      rw (stays s now d.conn v le soon small) (Conversation-IsServed t)

-- In any conversation with the echo server, where `uv_write` does not fail: the next read returns; the
-- connection stays open; what was accepted for sending is the greeting and behind it the answers to
-- all reads, in order, the hundred texts of a bulk test too; what was given to `uv_write` is that but
-- for the entries that wait; and when no write is in flight nothing waits.
pub Conversation-answered :
    (uv : Uv) {texts : List Bytes} {d : Driven}
    → ((calls : Calls) (bytes : Bytes) → uv.write_result calls bytes ≡ pos 0)
    → Conversation uv texts d
    → ((s : TcpServer) (now : ℕ) (bytes : Bytes)
        → IsTcpEcho s
        → (c' : TcpConnection) × (on_data_received uv s now d.conn bytes ≡ some c'))
      × (closes d.conn.calls ≡ 0)
      × (accepted d.conn.calls ≡ greeting ∷ answers texts)
      × (sent d.conn.calls ++ d.conn.send_queue ≡ greeting ∷ answers texts)
      × (d.conn.is_writing ≡ false → sent d.conn.calls ≡ greeting ∷ answers texts)
unfolding on_data_received
Conversation-answered uv {texts} {d} works t =
    let v = Conversation-IsServed uv works t in
    let all = sym v.consistent.fifo ∙ v.answered in
    (
      λ s now bytes e. elim (Option-cases (on_data_received uv s now d.conn bytes)) [
        | inl n ↦ let n' = rw (e.no_protocol, on_data_received) at n in cc
        | inr (c', n) ↦ (c', n)
      ],
      ground (arith, v.consistent, v.open_still),
      v.answered,
      all,
      λ idle. ground (arith, v.consistent, v.open_still, idle, all, append-nil (sent d.conn.calls)),
    )
