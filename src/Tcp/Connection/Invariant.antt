-- ===== src/Tcp/Connection/Invariant.antt =====
-- src/uv_net/tcp_connection.cpp: what every operation of a connection keeps.
use libuv_server.Prelude.{
  ℕ, suc, ◌+◌, ◌≤◌, ◌<◌, ◌≡◌, refl, Bool, true, false, not, ◌&&◌, ◌||◌, some, List, [], ◌∷◌, ◌++◌,
  append_assoc, append-nil, ℤ, arith, if◌then◌else◌, length, length-append, is_empty, Bytes,
  Option-cases, inl, inr,
}
use libuv_server.Connection.{Request, send_bytes, close_it}
use libuv_server.Uv.{Uv, message, queued, sent, accepted, closes, writes_begun}
use libuv_server.Tcp.State.{TcpConnection, TcpServer, make_connection, peer}
use libuv_server.Tcp.Connection.Rules.{on_data_received_rule}
use libuv_server.Tcp.Connection.{
  start_heartbeat, close, write_front, try_send, send, finish_graceful, on_write_complete,
  on_heartbeat_timeout, serve, on_message, on_data_received,
}

-- The connection has ended: it asked libuv to close the handle.
abbrev pub has_closed : TcpConnection → Bool
has_closed c =
    c.is_closing || (c.is_closing_gracefully && is_empty c.send_queue && not c.is_writing)

-- For a queue of at most `limit` entries, after `reported` completions of writes.
pub record IsConsistent (limit reported : ℕ) (c : TcpConnection) : Type 0 where
  -- What was accepted went to `uv_write` in order, but for what waits in the queue.
  pub fifo : accepted c.calls ≡ sent c.calls ++ c.send_queue
  pub bounded : length c.send_queue ≤ limit
  -- The handle is closed once, by one way of closing.
  pub one_way : (c.is_closing && c.is_closing_gracefully) ≡ false
  pub closed_once : closes c.calls ≡ (if has_closed c then 1 else 0)
  pub drained : (c.is_closing && not (is_empty c.send_queue && not c.is_writing)) ≡ false
  -- At most one write is in flight.
  pub begun : reported ≤ writes_begun c.calls
  pub flight : writes_begun c.calls ≤ reported + (if c.is_writing then 1 else 0)
  -- Bytes wait only behind a write, or behind a failure.
  pub busy : (is_empty c.send_queue || c.is_writing || c.is_closing_gracefully) ≡ true

module _ {limit reported : ℕ} where
  pub make_connection-IsConsistent :
      (now : ℕ) → reported ≡ 0 → IsConsistent limit reported (make_connection now)
  make_connection-IsConsistent now e = record {
    begun = omega arith;
    flight = omega arith;
    fifo = refl;
    bounded = omega arith;
    one_way = refl;
    closed_once = refl;
    drained = refl;
    busy = refl;
  }

  pub close-IsConsistent :
      {c : TcpConnection} → IsConsistent limit reported c → IsConsistent limit reported (close c)
  unfolding close
  close-IsConsistent v = ground arith

  pub start_heartbeat-IsConsistent :
      (server : TcpServer) (now : ℕ) {c : TcpConnection}
      → IsConsistent limit reported c
      → IsConsistent limit reported (start_heartbeat server now c)
  unfolding start_heartbeat
  start_heartbeat-IsConsistent server now v = ground arith

  pub on_heartbeat_timeout-IsConsistent :
      (server : TcpServer) (now : ℕ) {c : TcpConnection}
      → IsConsistent limit reported c
      → IsConsistent limit reported (on_heartbeat_timeout server now c)
  unfolding on_heartbeat_timeout
  on_heartbeat_timeout-IsConsistent server now {c} v = ground (arith, close-IsConsistent {c = c} v)

  -- A write from an open connection whose queue is `front ∷ rest`.
  write_front-IsConsistent :
      (uv : Uv) (c : TcpConnection) (queue : List Bytes)
      → accepted c.calls ≡ sent c.calls ++ queue
      → length queue ≤ limit
      → c.send_queue ≡ queue
      → c.is_closing ≡ false
      → c.is_closing_gracefully ≡ false
      → closes c.calls ≡ 0
      → writes_begun c.calls ≡ reported
      → c.is_writing ≡ false
      → IsConsistent limit reported (write_front uv queue c)
  unfolding write_front
  write_front-IsConsistent uv c [] f b q cl gr n m w = ground arith
  write_front-IsConsistent uv c (front ∷ rest) f b q cl gr n m w =
      ground (arith, append_assoc (sent c.calls) (front ∷ []) rest)

  -- What `Send` does once the bytes are in the queue.
  enqueued-IsConsistent :
      (uv : Uv) (now : ℕ) (c : TcpConnection) (queue : List Bytes) (bytes : Bytes)
      → c.send_queue ≡ queue
      → length queue < limit
      → c.is_closing ≡ false
      → c.is_closing_gracefully ≡ false
      → IsConsistent limit reported c
      → IsConsistent limit reported (
          try_send uv (record c {
            send_queue = queue ++ bytes ∷ [];
            calls = queued bytes ∷ c.calls;
            last_active_time = now;
          }))
  unfolding try_send
  enqueued-IsConsistent uv now c [] bytes q b cl gr v =
      ground (arith, append-nil (sent c.calls), append-nil (sent c.calls ++ bytes ∷ []))
  enqueued-IsConsistent uv now c (x ∷ xs) bytes q b cl gr v = ground (
    arith,
    length-append xs (bytes ∷ []),
    append_assoc (sent c.calls) (x ∷ xs) (bytes ∷ []),
    append_assoc (sent c.calls) (x ∷ []) (xs ++ bytes ∷ []),
  )

  pub send-IsConsistent :
      (uv : Uv) (server : TcpServer) (now : ℕ) (c : TcpConnection) (bytes : Bytes)
      → limit ≡ server.config.max_send_queue_size
      → IsConsistent limit reported c
      → IsConsistent limit reported (send uv server now c bytes)
  unfolding send
  send-IsConsistent uv server now c bytes e v =
      ground (arith, enqueued-IsConsistent uv now c c.send_queue bytes refl)

  -- The step from a finished write to the next, or to the end of a graceful close.
  write_next-IsConsistent :
      (uv : Uv) (c : TcpConnection) (queue : List Bytes)
      → c.send_queue ≡ queue
      → c.is_writing ≡ false
      → c.is_closing ≡ false
      → closes c.calls ≡ 0
      → writes_begun c.calls ≡ reported
      → accepted c.calls ≡ sent c.calls ++ queue
      → length queue ≤ limit
      → IsConsistent limit reported (finish_graceful (try_send uv c))
  unfolding try_send finish_graceful
  write_next-IsConsistent uv c [] q w cl n m f b = ground (arith)
  write_next-IsConsistent uv c (front ∷ rest) q w cl n m f b =
      ground (arith, append_assoc (sent c.calls) (front ∷ []) rest)

-- One more completion is reported.
pub on_write_complete-IsConsistent :
    {limit reported : ℕ} (uv : Uv) (now : ℕ) (c : TcpConnection) (status : ℤ)
    → reported < writes_begun c.calls
    → IsConsistent limit reported c
    → IsConsistent limit (suc reported) (on_write_complete uv now c status)
unfolding on_write_complete close
on_write_complete-IsConsistent {limit} {reported} uv now c status w v = ground (
  arith,
  write_next-IsConsistent {limit = limit} {reported = suc reported} uv
      (record c { is_writing = false; last_active_time = now }) c.send_queue refl,
)

-- The limit of the send queue.
abbrev pub queue_limit : TcpServer → ℕ
queue_limit server = server.config.max_send_queue_size

module _ (uv : Uv) (server : TcpServer) (now : ℕ) {reported : ℕ} where
  pub serve-IsConsistent :
      (requests : List Request) (c : TcpConnection)
      → IsConsistent (queue_limit server) reported c
      → IsConsistent (queue_limit server) reported (serve uv server now requests c)
  unfolding serve
  serve-IsConsistent [] c v = v
  serve-IsConsistent (send_bytes bytes ∷ rest) c v =
      serve-IsConsistent rest _ (send-IsConsistent uv server now c bytes refl v)
  serve-IsConsistent (close_it ∷ rest) c v = serve-IsConsistent rest _ (close-IsConsistent v)

  on_message-IsConsistent :
      (c : TcpConnection) (bytes : Bytes)
      → IsConsistent (queue_limit server) reported c
      → IsConsistent (queue_limit server) reported (on_message uv server now c bytes)
  unfolding on_message
  on_message-IsConsistent c bytes v = elim (Option-cases server.on_message) [
    | inl e ↦ rw (e, on_message) v
    | inr (callback, e) ↦
        rw (e, on_message) (serve-IsConsistent (callback (peer c) bytes) _ (calling v))
  ]
    where
      calling :
          IsConsistent (queue_limit server) reported c
          → IsConsistent
              (queue_limit server)
              reported
              (record c { calls = message bytes ∷ c.calls })
      calling v = ground arith

  pub on_data_received-IsConsistent :
      (c : TcpConnection) (bytes : Bytes) {c' : TcpConnection}
      → IsConsistent (queue_limit server) reported c
      → on_data_received uv server now c bytes ≡ some c'
      → IsConsistent (queue_limit server) reported c'
  on_data_received-IsConsistent c bytes v =
      on_data_received_rule uv server now (IsConsistent (queue_limit server) reported)
        on_message-IsConsistent (λ c b v. ground arith) (λ c v. close-IsConsistent v) c bytes
        (ground arith)
