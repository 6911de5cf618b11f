-- ===== src/Echo/Opening.antt =====
-- example/ws_echo_server.cpp: the WebSocket server's greeting of a client whose handshake is complete.
-- the request of its handshake to the answer to a message.
use libuv_server.Prelude.{ℕ, ◌≡◌, false, [], ◌∷◌, ◌++◌, pos, arith, take, Bytes, codes}
use libuv_server.Uv.{Uv, Calls, accepted, sent, queued, opened}
use libuv_server.Tcp.State.{TcpServer}
use libuv_server.Tcp.Server.{on_new_connection, count_opened}
use libuv_server.WebSocket.Frame.{make_frame}
use libuv_server.WebSocket.Parser.{Message, initial}
use libuv_server.WebSocket.Connection.{
  WebSocketConnection, in_handshake, in_open, start_heartbeat, write_front, try_send, send_frame,
  send, serve,
}
use libuv_server.WebSocket.Receive.{send_handshake_response}
use libuv_server.WebSocket.Server.{on_handshake_complete}
use libuv_server.WebSocket.Wire.{frames}
use libuv_server.Echo.Frames.{IsEcho}

-- What the server greets a client with.
abbrev pub greeting : Message
greeting = record { opcode = 1; payload = take 30 (codes "Welcome to WebSocket Echo Server!") }

-- A connection in its handshake on which nothing was sent yet.
pub record IsWaiting (c : WebSocketConnection) : Type 0 where
  pub waits : c.state ≡ in_handshake
  pub not_graceful : c.is_closing_gracefully ≡ false
  pub not_writing : c.is_writing ≡ false
  pub nothing_queued : c.send_queue ≡ []
  pub nothing_parsed : c.parser ≡ initial
  pub nothing_accepted : accepted c.tcp.calls ≡ []
  pub nothing_sent : sent c.tcp.calls ≡ []

-- An open connection in no graceful close whose frames were given to `uv_write` in order, and wait
-- behind a write only.
pub record IsWired (c : WebSocketConnection) : Type 0 where
  pub is_open : c.state ≡ in_open
  pub not_graceful : c.is_closing_gracefully ≡ false
  pub fifo : accepted c.tcp.calls ≡ sent c.tcp.calls ++ c.send_queue
  pub busy : c.is_writing ≡ false → c.send_queue ≡ []

-- A connection that was greeted.
pub record IsGreeted (c : WebSocketConnection) : Type 0 where
  pub wired : IsWired c
  pub empty_queue : c.send_queue ≡ []
  pub at_start : c.parser ≡ initial
  pub greeted : accepted c.tcp.calls ≡ frames (greeting ∷ [])

-- Between the two: open, and nothing sent.
record IsReady (c : WebSocketConnection) : Type 0 where
  is_open : c.state ≡ in_open
  not_graceful : c.is_closing_gracefully ≡ false
  not_writing : c.is_writing ≡ false
  nothing_queued : c.send_queue ≡ []
  nothing_parsed : c.parser ≡ initial
  nothing_accepted : accepted c.tcp.calls ≡ []
  nothing_sent : sent c.tcp.calls ≡ []

start_heartbeat-IsReady :
    (server : TcpServer) (now : ℕ) (c : WebSocketConnection)
    → IsWaiting c
    → IsReady (start_heartbeat server now (record c { state = in_open }))
unfolding start_heartbeat
start_heartbeat-IsReady server now c v = ground (arith, v)

send-IsGreeted :
    (uv : Uv) (server : TcpServer) (c : WebSocketConnection)
    → ((calls : Calls) (b : Bytes) → uv.write_result calls b ≡ pos 0)
    → IsEcho server
    → IsReady c
    → IsGreeted (
        send uv server
          (record c { tcp = record (c.tcp) { calls = opened ∷ c.tcp.calls } })
          greeting.payload)
unfolding send send_frame try_send write_front
send-IsGreeted uv server c works echo v =
    let frame = make_frame greeting.payload 1 in
    ground (arith, v, echo.limit, works (queued frame ∷ opened ∷ c.tcp.calls) frame)

count_opened-IsEcho : (s : TcpServer) → IsEcho s → IsEcho (count_opened s)
unfolding count_opened
count_opened-IsEcho s e = record {
  on_open = e.on_open;
  on_message = e.on_message;
  no_protocol = e.no_protocol;
  limit = e.limit;
  interval = e.interval;
}

-- The handshake is complete: the connection is open, and the greeting is on its way.
pub opens :
    (uv : Uv) (sha1 : Bytes → Bytes) (now : ℕ) (server : TcpServer) (c : WebSocketConnection)
    → ((calls : Calls) (b : Bytes) → uv.write_result calls b ≡ pos 0)
    → IsEcho server
    → IsWaiting c
    → IsGreeted (on_handshake_complete uv sha1 now server c).1
unfolding on_handshake_complete on_new_connection serve
opens uv sha1 now server c works echo v =
    rw (echo.on_open, on_new_connection)
      (send-IsGreeted uv (count_opened server) _ works (count_opened-IsEcho server echo)
        (start_heartbeat-IsReady server now c v))

pub opened-IsEcho :
    (uv : Uv) (sha1 : Bytes → Bytes) (now : ℕ) (server : TcpServer) (c : WebSocketConnection)
    → IsEcho server
    → IsEcho (on_handshake_complete uv sha1 now server c).0
unfolding on_handshake_complete on_new_connection
opened-IsEcho uv sha1 now server c echo = count_opened-IsEcho server echo

-- The response is written, and nothing else changed but the buffer of the request.
pub answered-IsWaiting :
    (uv : Uv) (sha1 : Bytes → Bytes) (c : WebSocketConnection) (text key : Bytes)
    → IsWaiting c
    → IsWaiting (send_handshake_response uv sha1 (record c { handshake_buffer = text }) key)
unfolding send_handshake_response
answered-IsWaiting uv sha1 c text key v = ground arith
