-- ===== src/Tcp/Connection/Stranded.antt =====
-- src/uv_net/tcp_connection.cpp: a connection whose write fails never closes its handle itself.
use libuv_server.Prelude.{
  ℕ, suc, ◌≡◌, true, false, ◌||◌, List, [], ◌∷◌, ℤ, pos, is_negative, ◌==ℤ◌, arith, Bytes,
  Option-cases, inl, inr,
}
use libuv_server.Uv.{Uv, sent, closes, writes_begun}
use libuv_server.Connection.{Request, send_bytes, close_it}
use libuv_server.Tcp.State.{TcpConnection, TcpServer, peer}
use libuv_server.Tcp.Connection.{
  start_heartbeat, close, write_front, try_send, send, finish_graceful, on_write_complete,
  on_heartbeat_timeout, serve, on_message,
}
use libuv_server.Tcp.Connection.Rules.{on_data_received_rule}
use libuv_server.Tcp.Connection.History.{
  Driven, Step, Reach, starts, sends, ends, times_out, receives, reads_end, reports, here, next,
}

-- Nothing of the connection's own will ever close its handle: it waits in a graceful close for the
-- completion of a write, and no write is in flight. These are all the bytes that it gives to `uv_write`.
record IsStuck (texts : List Bytes) (d : Driven) : Type 0 where
  pub graceful : d.conn.is_closing_gracefully ≡ true
  pub none_in_flight : writes_begun d.conn.calls ≡ d.reported
  pub still_open : closes d.conn.calls ≡ 0
  pub gave : sent d.conn.calls ≡ texts

-- How the only write in flight ends badly, on a connection that nobody is closing: libuv reports an
-- error other than a cancellation, or it ends well and `uv_write` refuses the next of several entries
-- that wait.
pub data WriteFails (uv : Uv) (now : ℕ) (s : Driven) : Driven → Type 0 where
  report_fails :
      (status : ℤ)
      → is_negative status ≡ true
      → (status ==ℤ uv.ecanceled) ≡ false
      → WriteFails uv now s
          (record { conn = on_write_complete uv now s.conn status; reported = suc s.reported })
  next_is_refused :
      (status : ℤ) (front second : Bytes) (rest : List Bytes)
      → is_negative status ≡ false
      → s.conn.send_queue ≡ front ∷ second ∷ rest
      → (uv.write_result s.conn.calls front ==ℤ pos 0) ≡ false
      → WriteFails uv now s
          (record { conn = on_write_complete uv now s.conn status; reported = suc s.reported })

module _ (uv : Uv) (server : TcpServer) (texts : List Bytes) where
  abbrev Stays : ℕ → TcpConnection → Type 0
  Stays reported c = IsStuck texts (record { conn = c; reported = reported })

  send-Stays :
      (now : ℕ) {reported : ℕ} (c : TcpConnection) (bytes : Bytes)
      → Stays reported c
      → Stays reported (send uv server now c bytes)
  unfolding send
  send-Stays now c bytes v = ground arith

  close-Stays : {reported : ℕ} (c : TcpConnection) → Stays reported c → Stays reported (close c)
  unfolding close
  close-Stays c v = ground arith

  serve-Stays :
      (now : ℕ) {reported : ℕ} (requests : List Request) (c : TcpConnection)
      → Stays reported c
      → Stays reported (serve uv server now requests c)
  unfolding serve
  serve-Stays now [] c v = v
  serve-Stays now (send_bytes bytes ∷ rest) c v = serve-Stays now rest _ (send-Stays now c bytes v)
  serve-Stays now (close_it ∷ rest) c v = serve-Stays now rest _ (close-Stays c v)

  on_message-Stays :
      (now : ℕ) {reported : ℕ} (c : TcpConnection) (bytes : Bytes)
      → Stays reported c
      → Stays reported (on_message uv server now c bytes)
  unfolding on_message
  on_message-Stays now c bytes v = elim (Option-cases server.on_message) [
    | inl e ↦ rw (e, on_message) v
    | inr (callback, e) ↦
        rw (e, on_message) (serve-Stays now (callback (peer c) bytes) _ (ground arith))
  ]

  Step-IsStuck : {s t : Driven} → Step uv server s t → IsStuck texts s → IsStuck texts t
  unfolding start_heartbeat on_heartbeat_timeout
  Step-IsStuck (starts d now) v = ground arith
  Step-IsStuck (sends d now bytes) v = send-Stays now d.conn bytes v
  Step-IsStuck (ends d) v = close-Stays d.conn v
  Step-IsStuck (times_out d now) v = ground (arith, close-Stays d.conn v)
  Step-IsStuck (receives d now bytes c e) v =
      on_data_received_rule uv server now (Stays d.reported) (on_message-Stays now)
        (λ c b v. ground arith) close-Stays d.conn bytes (ground arith) e
  Step-IsStuck (reads_end d) v = ground arith
  Step-IsStuck (reports d now status h) v = absurd (omega (arith, v.none_in_flight))

  Reach-IsStuck : {s t : Driven} → Reach uv server s t → IsStuck texts s → IsStuck texts t
  Reach-IsStuck here v = v
  Reach-IsStuck (next r st) v = Step-IsStuck st (Reach-IsStuck r v)

module _ (uv : Uv) (now : ℕ) (s : Driven) where
  WriteFails-IsStuck :
      {t : Driven}
      → WriteFails uv now s t
      → s.conn.is_writing ≡ true
      → (s.conn.is_closing || s.conn.is_closing_gracefully) ≡ false
      → closes s.conn.calls ≡ 0
      → writes_begun s.conn.calls ≡ suc s.reported
      → IsStuck (sent t.conn.calls) t
  unfolding on_write_complete try_send write_front finish_graceful close
  WriteFails-IsStuck (report_fails status neg ne) w o n b = ground arith
  WriteFails-IsStuck (next_is_refused status front second rest pos_status q r) w o n b =
      ground arith

  -- When the only write in flight ends badly, on a connection that nobody is closing yet, either
  -- because libuv reports an error other than a cancellation, or because it ends well and `uv_write`
  -- refuses the next of several entries that wait: in any later history of the connection's calls and
  -- callbacks, `uv_close` is never called with the callback that deletes the connection, so that it is
  -- never deleted, and nothing more is given to `uv_write`. The server may still close the handle with
  -- no callback, where a read gives no data.
  pub failed_write_never_closes :
      (server : TcpServer) {t u : Driven}
      → WriteFails uv now s t
      → s.conn.is_writing ≡ true
      → (s.conn.is_closing || s.conn.is_closing_gracefully) ≡ false
      → closes s.conn.calls ≡ 0
      → writes_begun s.conn.calls ≡ suc s.reported
      → Reach uv server t u
      → (closes u.conn.calls ≡ 0) × (sent u.conn.calls ≡ sent t.conn.calls)
  failed_write_never_closes server {t} fails w o n b r =
      let v = Reach-IsStuck uv server (sent t.conn.calls) r (WriteFails-IsStuck fails w o n b) in
      (v.still_open, v.gave)
