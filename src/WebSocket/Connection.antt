-- ===== src/WebSocket/Connection.antt =====
-- src/uv_net/websocket_connection.cpp and include/uv_net/websocket_connection.h: a connection of
-- `server` and its operations, at the loop time `now`. Log lines are left out.
use libuv_server.Prelude.{
  ℕ, ◌+◌, ◌-◌, ◌*◌, ◌%◌, ◌^◌, Bool, true, false, not, ◌&&◌, ◌||◌, List, [], ◌∷◌, ◌++◌, ℤ, pos,
  is_negative, ◌==ℤ◌, to_size, ltb, leb, if◌then◌else◌, length, is_empty, Bytes,
}
use libuv_server.Connection.{Request, send_bytes, close_it}
use libuv_server.Uv.{Uv, write, close_handle, timer_start, timer_stop, queued}
use libuv_server.Tcp.State.{TcpConnection, TcpServer, make_connection}
use libuv_server.WebSocket.Frame.{make_frame}
use libuv_server.WebSocket.Parser.{Parser, initial}

pub data State : Type 0 where
  in_handshake in_open in_closing in_closed : State

abbrev pub is_open : State → Bool
is_open in_open = true
is_open _ = false

abbrev pub is_ending : State → Bool
is_ending in_closing = true
is_ending in_closed = true
is_ending _ = false

-- `tcp` holds the fields of the base class, `parser` those of `ParseFrame`.
pub record WebSocketConnection : Type 0 where
  pub tcp : TcpConnection
  pub open tcp use *
  pub state : State
  pub handshake_buffer : Bytes
  pub parser : Parser

-- The constructor at time `now`.
abbrev pub make_web_socket : ℕ → WebSocketConnection
make_web_socket now = record {
  tcp = make_connection now;
  state = in_handshake;
  handshake_buffer = [];
  parser = initial;
}

-- `StartHeartbeat`.
unfoldable pub start_heartbeat : TcpServer → ℕ → WebSocketConnection → WebSocketConnection
start_heartbeat server now c = if c.is_heartbeat_running then c else record c {
  tcp = record t {
    is_heartbeat_running = true;
    last_active_time = now;
    calls = timer_start interval interval ∷ t.calls;
  };
}
  where
    t : TcpConnection
    t = c.tcp

    interval : ℕ
    interval = to_size server.config.heartbeat_interval

-- `StopHeartbeat`.
unfoldable pub stop_heartbeat : WebSocketConnection → WebSocketConnection
stop_heartbeat c =
    if not c.is_heartbeat_running
    then c
    else record c { tcp = record t { calls = timer_stop ∷ t.calls; is_heartbeat_running = false } }
  where
    t : TcpConnection
    t = c.tcp

-- `Close`.
unfoldable pub close : WebSocketConnection → WebSocketConnection
unfolding stop_heartbeat
close c =
    if is_ending c.state || c.is_closing_gracefully
    then c
    else if is_empty stopped.send_queue && not stopped.is_writing
    then record stopped { state = in_closing; tcp = record t { calls = close_handle ∷ t.calls } }
    else record stopped { tcp = record t { is_closing_gracefully = true }; state = in_closing }
  where
    stopped : WebSocketConnection
    stopped = stop_heartbeat c

    t : TcpConnection
    t = stopped.tcp

-- `TrySend` behind its guard.
unfoldable pub write_front : Uv → List Bytes → WebSocketConnection → WebSocketConnection
unfolding close
write_front uv [] c = c
write_front uv (front ∷ rest) c =
    if not (r ==ℤ pos 0)
    then close (record c { tcp = record writing { is_writing = false } })
    else record c { tcp = writing }
  where
    t : TcpConnection
    t = c.tcp

    r : ℤ
    r = uv.write_result t.calls front

    writing : TcpConnection
    writing = record t { send_queue = rest; is_writing = true; calls = write front r ∷ t.calls }

-- `TrySend`.
unfoldable pub try_send : Uv → WebSocketConnection → WebSocketConnection
unfolding write_front
try_send uv c = if c.is_writing || is_empty c.send_queue then c else write_front uv c.send_queue c

-- `SendFrame`.
unfoldable pub send_frame : Uv → WebSocketConnection → Bytes → ℕ → WebSocketConnection
send_frame uv c bytes opcode = try_send uv (record c {
  tcp = record t { send_queue = t.send_queue ++ frame ∷ []; calls = queued frame ∷ t.calls };
})
  where
    t : TcpConnection
    t = c.tcp

    frame : Bytes
    frame = make_frame bytes opcode

-- `Send`.
unfoldable pub send : Uv → TcpServer → WebSocketConnection → Bytes → WebSocketConnection
send uv server c bytes =
    if not (is_open c.state) || c.is_closing_gracefully
    then c
    else if leb server.config.max_send_queue_size (length c.send_queue)
    then c
    else send_frame uv c bytes 0x01

-- The end of `OnWriteComplete`.
unfoldable pub finish_graceful : WebSocketConnection → WebSocketConnection
finish_graceful c =
    if c.is_closing_gracefully && is_empty c.send_queue && not c.is_writing
    then record c { tcp = record t { calls = close_handle ∷ t.calls } }
    else c
  where
    t : TcpConnection
    t = c.tcp

-- `OnWriteComplete`.
unfoldable pub on_write_complete : Uv → WebSocketConnection → ℤ → WebSocketConnection
on_write_complete uv c status =
    if is_negative status
    then (if not (status ==ℤ uv.ecanceled) then close c else c)
    else finish_graceful (try_send uv (record c { tcp = record t { is_writing = false } }))
  where
    t : TcpConnection
    t = c.tcp

-- `OnHeartbeatTimeout`.
unfoldable pub on_heartbeat_timeout : TcpServer → ℕ → WebSocketConnection → WebSocketConnection
on_heartbeat_timeout server now c =
    if ltb (interval * 2 % 2 ^ 64) ((now + 2 ^ 64 - c.last_active_time) % 2 ^ 64)
    then close c
    else c
  where
    interval : ℕ
    interval = to_size server.config.heartbeat_interval

-- What a callback asks for, in order.
unfoldable pub serve : Uv → TcpServer → List Request → WebSocketConnection → WebSocketConnection
serve uv server [] c = c
serve uv server (send_bytes bytes ∷ rest) c = serve uv server rest (send uv server c bytes)
serve uv server (close_it ∷ rest) c = serve uv server rest (close c)
