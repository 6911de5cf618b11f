-- ===== src/WebSocket/Activity.antt =====
-- src/uv_net/websocket_connection.cpp: the time of the last activity of a WebSocket connection.
use libuv_server.Prelude.{
  ℕ, suc, ◌+◌, ◌-◌, ◌*◌, ◌%◌, ◌^◌, ◌<◌, ◌≡◌, refl, false, Option, none, some, List, [], ◌∷◌, arith,
  ℤ, to_size, Bytes, Option-cases, inl, inr,
}
use libuv_server.Uv.{Uv, closes}
use libuv_server.Tcp.State.{TcpServer}
use libuv_server.WebSocket.Connection.{
  WebSocketConnection, in_open, on_heartbeat_timeout, stop_heartbeat, close, write_front, try_send,
  send_frame, send, finish_graceful, on_write_complete,
}
use libuv_server.WebSocket.Rules.{parse_frame_rule}
use libuv_server.WebSocket.Receive.{parse_frame}

-- The connection was last active at the time `t`.
abbrev IsSince : ℕ → WebSocketConnection → Type 0
IsSince t c = c.tcp.last_active_time ≡ t

module _ {t : ℕ} (uv : Uv) (server : TcpServer) where
  close-IsSince : (c : WebSocketConnection) → IsSince t c → IsSince t (close c)
  unfolding close
  close-IsSince c v = ground arith

  write_front-IsSince :
      (queue : List Bytes) (c : WebSocketConnection)
      → IsSince t c
      → IsSince t (write_front uv queue c)
  unfolding write_front
  write_front-IsSince [] c v = v
  write_front-IsSince (front ∷ rest) c v = ground arith

  try_send-IsSince : (c : WebSocketConnection) → IsSince t c → IsSince t (try_send uv c)
  unfolding try_send
  try_send-IsSince c v = ground (arith, write_front-IsSince c.send_queue c v)

  send_frame-IsSince :
      (c : WebSocketConnection) (bytes : Bytes) (opcode : ℕ)
      → IsSince t c
      → IsSince t (send_frame uv c bytes opcode)
  unfolding send_frame
  send_frame-IsSince c bytes opcode v = try_send-IsSince _ v

  send-IsSince :
      (c : WebSocketConnection) (bytes : Bytes) → IsSince t c → IsSince t (send uv server c bytes)
  unfolding send
  send-IsSince c bytes v = ground (arith, send_frame-IsSince c bytes 0x01 v)

  on_write_complete-IsSince :
      (c : WebSocketConnection) (status : ℤ)
      → IsSince t c
      → IsSince t (on_write_complete uv c status)
  unfolding on_write_complete finish_graceful
  on_write_complete-IsSince c status v = ground (
    arith,
    close-IsSince c v,
    try_send-IsSince (record c { tcp = record (c.tcp) { is_writing = false } }) v,
  )

  parse_frame-IsSince :
      (c : WebSocketConnection) (bytes : Bytes) {c' : WebSocketConnection}
      → IsSince t c
      → parse_frame uv server c bytes ≡ some c'
      → IsSince t c'
  parse_frame-IsSince c bytes v e =
      parse_frame_rule uv server (IsSince t) close-IsSince (λ c b o s v. send_frame-IsSince c b o v)
        (λ c b v. v) (λ c v. v) (λ c p v. v) c bytes v e

-- What a live peer and its user do on an open connection: frames come in, texts go out, and their
-- writes are reported.
pub data Activity : Type 0 where
  receives : Bytes → Activity
  sends : Bytes → Activity
  reports : ℤ → Activity

unfoldable pub run :
    Uv → TcpServer → List Activity → WebSocketConnection → Option WebSocketConnection
run uv server [] c = some c
run uv server (receives bytes ∷ rest) c = elim (parse_frame uv server c bytes) [
  | none ↦ none
  | some c' ↦ run uv server rest c'
]
run uv server (sends bytes ∷ rest) c = run uv server rest (send uv server c bytes)
run uv server (reports status ∷ rest) c = run uv server rest (on_write_complete uv c status)

module _ {t : ℕ} (uv : Uv) (server : TcpServer) where
  run-IsSince :
      (activities : List Activity) (c : WebSocketConnection) {c' : WebSocketConnection}
      → IsSince t c
      → run uv server activities c ≡ some c'
      → IsSince t c'
  unfolding run
  run-IsSince [] c v e = ground arith
  run-IsSince (receives bytes ∷ rest) c {c'} v e =
      elim (Option-cases (parse_frame uv server c bytes)) [
        | inl n ↦ let e' = rw (n, run) at e in cc
        | inr (d, s) ↦
            run-IsSince rest d {c' = c'} (parse_frame-IsSince uv server c bytes v s)
              (rw (s, run) at e)
      ]
  run-IsSince (sends bytes ∷ rest) c v e = run-IsSince rest _ (send-IsSince uv server c bytes v) e
  run-IsSince (reports status ∷ rest) c v e =
      run-IsSince rest _ (on_write_complete-IsSince uv server c status v) e

-- Neither receiving nor sending counts as activity: an open connection that the peer and the user
-- kept in use, with nothing to send at the moment, is closed by the heartbeat once twice the
-- interval has passed since the time that was last set before all of that.
pub active_connection_times_out :
    (uv : Uv) (server : TcpServer) (activities : List Activity) (now : ℕ)
    (c c' : WebSocketConnection)
    → run uv server activities c ≡ some c'
    → c'.state ≡ in_open
    → c'.is_closing_gracefully ≡ false
    → c'.is_writing ≡ false
    → c'.send_queue ≡ []
    → to_size server.config.heartbeat_interval * 2 % 2 ^ 64
      < (now + 2 ^ 64 - c.tcp.last_active_time) % 2 ^ 64
    → closes (on_heartbeat_timeout server now c').tcp.calls ≡ suc (closes c'.tcp.calls)
unfolding on_heartbeat_timeout close stop_heartbeat
active_connection_times_out uv server activities now c c' ran state graceful writing queue idle =
    let since =
      run-IsSince {t = c.tcp.last_active_time} uv server activities c {c' = c'} refl ran in
    ground (arith, since, state, graceful, writing, queue, idle)
