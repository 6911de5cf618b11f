-- ===== src/Tcp/Connection.antt =====
-- src/uv_net/tcp_connection.cpp: the operations of a connection of `server`, at the loop time `now`.
-- Log lines are left out.
pub mod Rules
pub mod Invariant
pub mod History
pub mod Closing
pub mod Stranded
pub mod Flushed
pub mod Delivery
pub mod Split
pub mod Fragments
pub mod Wrapped
pub mod Accepting
pub mod Identity
pub mod Buffered
pub mod Alive
pub mod Queued
use libuv_server.Prelude.{
  ℕ, zero, suc, ◌+◌, ◌-◌, ◌*◌, ◌%◌, ◌^◌, Bool, true, false, not, ◌&&◌, ◌||◌, Option, none, some,
  List, [], ◌∷◌, ◌++◌, ℤ, pos, is_negative, ◌==ℤ◌, to_size, ltb, leb, if◌then◌else◌, length,
  is_empty, take, drop, Bytes,
}
use libuv_server.Config.{ServerConfig}
use libuv_server.Protocol.{ServerProtocol, package_less, package_full, package_error}
use libuv_server.Connection.{Request, send_bytes, close_it, CallbackMessage}
use libuv_server.Uv.{
  Uv, Calls, write, close_handle, timer_start, timer_stop, message, closed, queued,
}
use libuv_server.Tcp.State.{TcpConnection, TcpServer, peer}

-- `StartHeartbeat`. The interval is converted to an unsigned number of milliseconds.
unfoldable pub start_heartbeat : TcpServer → ℕ → TcpConnection → TcpConnection
start_heartbeat server now c = if c.is_heartbeat_running then c else record c {
  is_heartbeat_running = true;
  last_active_time = now;
  calls = timer_start interval interval ∷ c.calls;
}
  where
    interval : ℕ
    interval = to_size server.config.heartbeat_interval

-- `StopHeartbeat`.
unfoldable pub stop_heartbeat : TcpConnection → TcpConnection
stop_heartbeat c =
    if not c.is_heartbeat_running
    then c
    else record c { calls = timer_stop ∷ c.calls; is_heartbeat_running = false }

-- `Close`.
unfoldable pub close : TcpConnection → TcpConnection
unfolding stop_heartbeat
close c =
    if c.is_closing || c.is_closing_gracefully
    then c
    else if is_empty stopped.send_queue && not stopped.is_writing
    then record stopped { is_closing = true; calls = close_handle ∷ stopped.calls }
    else record stopped { is_closing_gracefully = true }
  where
    stopped : TcpConnection
    stopped = stop_heartbeat c

-- `TrySend` behind its guard: the front of the queue goes to `uv_write`.
unfoldable pub write_front : Uv → List Bytes → TcpConnection → TcpConnection
unfolding close
write_front uv [] c = c
write_front uv (front ∷ rest) c =
    if not (r ==ℤ pos 0) then close (record writing { is_writing = false }) else writing
  where
    r : ℤ
    r = uv.write_result c.calls front

    writing : TcpConnection
    writing = record c { send_queue = rest; is_writing = true; calls = write front r ∷ c.calls }

-- `TrySend`.
unfoldable pub try_send : Uv → TcpConnection → TcpConnection
unfolding write_front
try_send uv c = if c.is_writing || is_empty c.send_queue then c else write_front uv c.send_queue c

-- `Send`.
unfoldable pub send : Uv → TcpServer → ℕ → TcpConnection → Bytes → TcpConnection
send uv server now c bytes =
    if c.is_closing || c.is_closing_gracefully
    then c
    else if leb server.config.max_send_queue_size (length c.send_queue)
    then c
    else try_send uv (record c {
      send_queue = c.send_queue ++ bytes ∷ [];
      calls = queued bytes ∷ c.calls;
      last_active_time = now;
    })

-- The end of `OnWriteComplete`: a graceful close whose queue has run empty.
unfoldable pub finish_graceful : TcpConnection → TcpConnection
finish_graceful c =
    if c.is_closing_gracefully && is_empty c.send_queue && not c.is_writing
    then record c { calls = close_handle ∷ c.calls }
    else c

-- `OnWriteComplete`.
unfoldable pub on_write_complete : Uv → ℕ → TcpConnection → ℤ → TcpConnection
on_write_complete uv now c status =
    if is_negative status
    then (if not (status ==ℤ uv.ecanceled) then close c else c)
    else finish_graceful (try_send uv (record c { is_writing = false; last_active_time = now }))

-- `OnHeartbeatTimeout`, in the unsigned arithmetic of `size_t`.
unfoldable pub on_heartbeat_timeout : TcpServer → ℕ → TcpConnection → TcpConnection
on_heartbeat_timeout server now c =
    if ltb (interval * 2 % 2 ^ 64) ((now + 2 ^ 64 - c.last_active_time) % 2 ^ 64)
    then close c
    else c
  where
    interval : ℕ
    interval = to_size server.config.heartbeat_interval

-- What a callback asks for, in order.
unfoldable pub serve : Uv → TcpServer → ℕ → List Request → TcpConnection → TcpConnection
serve uv server now [] c = c
serve uv server now (send_bytes bytes ∷ rest) c =
    serve uv server now rest (send uv server now c bytes)
serve uv server now (close_it ∷ rest) c = serve uv server now rest (close c)

-- `TcpServer::OnMessage`.
unfoldable pub on_message : Uv → TcpServer → ℕ → TcpConnection → Bytes → TcpConnection
on_message uv server now c bytes = elim server.on_message [
  | none ↦ c
  | some callback ↦
      serve uv server now (callback (peer c) bytes) (record c { calls = message bytes ∷ c.calls })
]

-- The body of the loop at a full package: it is handed over, then erased from the buffer. Outside
-- the buffer `take` and `drop` stop at its end, where the code's behaviour is undefined.
unfoldable pub deliver_front : Uv → TcpServer → ℕ → TcpConnection → ℕ → TcpConnection
deliver_front uv server now c package_len =
    let c' = on_message uv server now c (take package_len c.recv_buffer) in
    record c' { recv_buffer = drop package_len c'.recv_buffer }

-- The loop of `OnDataReceived`, on fuel; `none` means that the fuel ran out.
unfoldable pub drain :
    Uv → TcpServer → ℕ → ServerProtocol → ℕ → TcpConnection → Option TcpConnection
drain uv server now protocol zero c = none
drain uv server now protocol (suc fuel) c = elim (is_empty c.recv_buffer) [
  | true ↦ some c
  | false ↦ elim (protocol.parse_package c.recv_buffer).status [
    | package_full ↦
        drain uv server now protocol fuel (
          deliver_front uv server now c
            (to_size (protocol.parse_package c.recv_buffer).package_len))
    | package_less ↦ some c
    | package_error ↦ some (close c)
  ]
]

-- `OnDataReceived`. A round of the loop takes a byte at least, so one more round than there are
-- bytes is enough.
unfoldable pub on_data_received : Uv → TcpServer → ℕ → TcpConnection → Bytes → Option TcpConnection
on_data_received uv server now c bytes = elim server.server_protocol [
  | none ↦
      some (record (on_message uv server now received received.recv_buffer) { recv_buffer = [] })
  | some protocol ↦ drain uv server now protocol (suc (length received.recv_buffer)) received
]
  where
    received : TcpConnection
    received = record c { last_active_time = now; recv_buffer = c.recv_buffer ++ bytes }
