-- ===== src/WebSocket/Invariant.antt =====
-- src/uv_net/websocket_connection.cpp: what every operation of a WebSocket connection keeps.
use libuv_server.Prelude.{
  ℕ, suc, ◌+◌, ◌≤◌, ◌<◌, ◌≡◌, refl, Bool, false, not, ◌&&◌, ◌||◌, List, [], ◌∷◌, ◌++◌, append_assoc,
  ℤ, arith, if◌then◌else◌, is_empty, Bytes,
}
use libuv_server.Uv.{Uv, sent, accepted, closes, writes_begun}
use libuv_server.Tcp.State.{TcpServer}
use libuv_server.WebSocket.Frame.{make_frame}
use libuv_server.WebSocket.Connection.{
  WebSocketConnection, is_ending, make_web_socket, start_heartbeat, close, write_front, try_send,
  send_frame, send, finish_graceful, on_write_complete, on_heartbeat_timeout,
}

-- The handle may have been closed: at once, or at the end of a graceful close.
abbrev pub may_have_closed : WebSocketConnection → Bool
may_have_closed c =
    is_ending c.state
    && (not c.is_closing_gracefully || (is_empty c.send_queue && not c.is_writing))

-- After `reported` completions of writes.
pub record IsOrderly (reported : ℕ) (c : WebSocketConnection) : Type 0 where
  -- The frames that were queued went to `uv_write` in order, but for those that wait.
  pub fifo : accepted c.tcp.calls ≡ sent c.tcp.calls ++ c.send_queue
  -- At most one write is in flight.
  pub begun : reported ≤ writes_begun c.tcp.calls
  pub flight : writes_begun c.tcp.calls ≤ reported + (if c.is_writing then 1 else 0)
  -- The handle is closed once at most, and only in the closing states.
  pub graceful_ends : (c.is_closing_gracefully && not (is_ending c.state)) ≡ false
  pub closed_once : closes c.tcp.calls ≤ (if may_have_closed c then 1 else 0)

-- The same while a graceful close has not come to its end.
pub record IsReading (reported : ℕ) (c : WebSocketConnection) : Type 0 where
  pub fifo : accepted c.tcp.calls ≡ sent c.tcp.calls ++ c.send_queue
  pub begun : reported ≤ writes_begun c.tcp.calls
  pub flight : writes_begun c.tcp.calls ≤ reported + (if c.is_writing then 1 else 0)
  pub graceful_ends : (c.is_closing_gracefully && not (is_ending c.state)) ≡ false
  pub closed_at_once :
      closes c.tcp.calls ≤ (if is_ending c.state && not c.is_closing_gracefully then 1 else 0)

module _ {reported : ℕ} where
  pub make_web_socket-IsOrderly :
      (now : ℕ) → reported ≡ 0 → IsOrderly reported (make_web_socket now)
  make_web_socket-IsOrderly now e = ground arith

  pub IsReading-IsOrderly : (c : WebSocketConnection) → IsReading reported c → IsOrderly reported c
  IsReading-IsOrderly c v = ground arith

  pub unclosed-IsReading :
      (c : WebSocketConnection)
      → IsOrderly reported c
      → closes c.tcp.calls ≡ 0
      → IsReading reported c
  unclosed-IsReading c v e = ground arith

  pub close-IsOrderly :
      (c : WebSocketConnection) → IsOrderly reported c → IsOrderly reported (close c)
  unfolding close
  close-IsOrderly c v = ground arith

  pub close-IsReading :
      (c : WebSocketConnection) → IsReading reported c → IsReading reported (close c)
  unfolding close
  close-IsReading c v = ground arith

  write_front-IsReading :
      (uv : Uv) (queue : List Bytes) (c : WebSocketConnection)
      → c.send_queue ≡ queue
      → c.is_writing ≡ false
      → IsReading reported c
      → IsReading reported (write_front uv queue c)
  unfolding write_front
  write_front-IsReading uv [] c q w v = v
  write_front-IsReading uv (front ∷ rest) c q w v =
      ground (arith, append_assoc (sent c.tcp.calls) (front ∷ []) rest)

  try_send-IsReading :
      (uv : Uv) (c : WebSocketConnection)
      → IsReading reported c
      → IsReading reported (try_send uv c)
  unfolding try_send
  try_send-IsReading uv c v = ground (arith, write_front-IsReading uv c.send_queue c refl)

  pub send_frame-IsReading :
      (uv : Uv) (c : WebSocketConnection) (bytes : Bytes) (opcode : ℕ)
      → IsReading reported c
      → IsReading reported (send_frame uv c bytes opcode)
  unfolding send_frame
  send_frame-IsReading uv c bytes opcode v =
      try_send-IsReading uv _ (
        ground (arith, append_assoc (sent c.tcp.calls) c.send_queue (make_frame bytes opcode ∷ [])))

  pub send-IsOrderly :
      (uv : Uv) (server : TcpServer) (c : WebSocketConnection) (bytes : Bytes)
      → IsOrderly reported c
      → IsOrderly reported (send uv server c bytes)
  unfolding send
  send-IsOrderly uv server c bytes v = ground (
    arith,
    IsReading-IsOrderly (send_frame uv c bytes 0x01),
    send_frame-IsReading uv c bytes 0x01,
  )

  pub start_heartbeat-IsOrderly :
      (server : TcpServer) (now : ℕ) (c : WebSocketConnection)
      → IsOrderly reported c
      → IsOrderly reported (start_heartbeat server now c)
  unfolding start_heartbeat
  start_heartbeat-IsOrderly server now c v = ground arith

  pub on_heartbeat_timeout-IsOrderly :
      (server : TcpServer) (now : ℕ) (c : WebSocketConnection)
      → IsOrderly reported c
      → IsOrderly reported (on_heartbeat_timeout server now c)
  unfolding on_heartbeat_timeout
  on_heartbeat_timeout-IsOrderly server now c v = ground (arith, close-IsOrderly c v)

  finish_graceful-IsOrderly :
      (c : WebSocketConnection) → IsReading reported c → IsOrderly reported (finish_graceful c)
  unfolding finish_graceful
  finish_graceful-IsOrderly c v = ground arith

-- One more completion is reported.
pub on_write_complete-IsOrderly :
    {reported : ℕ} (uv : Uv) (c : WebSocketConnection) (status : ℤ)
    → reported < writes_begun c.tcp.calls
    → IsOrderly reported c
    → IsOrderly (suc reported) (on_write_complete uv c status)
unfolding on_write_complete close
on_write_complete-IsOrderly {reported} uv c status w v = ground (
  arith,
  finish_graceful-IsOrderly {reported = suc reported} (try_send uv idle),
  try_send-IsReading {reported = suc reported} uv idle,
)
  where
    idle : WebSocketConnection
    idle = record c { tcp = record (c.tcp) { is_writing = false } }
