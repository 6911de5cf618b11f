-- ===== src/WebSocket/Wire/Written.antt =====
-- src/uv_net/websocket_connection.cpp: every write of a connection is a frame, over any history.
use libuv_server.Prelude.{
  ℕ, ◌^◌, ◌<◌, ◌≡◌, refl, sym, ap, ◌∙◌, true, false, All-append, some, List, [], ◌∷◌, ◌++◌, ℤ,
  arith, length, concat, All, Bytes, Option-cases, inl, inr,
}
use libuv_server.Uv.{Uv, sent, accepted}
use libuv_server.Tcp.State.{TcpServer, peer}
use libuv_server.Tcp.Server.{on_new_connection, count_opened}
use libuv_server.WebSocket.Frame.{make_frame}
use libuv_server.WebSocket.Parser.{Message}
use libuv_server.WebSocket.Connection.{
  WebSocketConnection, in_open, start_heartbeat, stop_heartbeat, close, write_front, try_send,
  send_frame, finish_graceful, on_write_complete, on_heartbeat_timeout,
}
use libuv_server.WebSocket.Receive.{send_handshake_response}
use libuv_server.WebSocket.Server.{on_handshake_complete}
use libuv_server.WebSocket.Rules.{is_sent, send_rule, serve_rule, on_data_received_rule}
use libuv_server.WebSocket.History.{
  Driven, Step, Reach, starts, sends, ends, times_out, receives, shakes_hands, reads_end, reports,
  begins, continues, fresh, Reach-IsOrderly,
}
use libuv_server.WebSocket.Wire.{frames, IsSent, make_frame_pos, read_stream, read_stream-frames}

-- What the connection put into its queue are the frames of some messages.
abbrev pub IsWritten : WebSocketConnection → Type 0
IsWritten c =
    (ms : List Message) × (accepted c.tcp.calls ≡ frames ms) × All (λ m. is_sent m.opcode ≡ true) ms

-- Only `SendFrame` adds to what is accepted.
pub same-IsWritten :
    (c d : WebSocketConnection)
    → accepted d.tcp.calls ≡ accepted c.tcp.calls
    → IsWritten c
    → IsWritten d
same-IsWritten c d e (ms, f, s) = (ms, e ∙ f, s)

close-accepted : (c : WebSocketConnection) → accepted (close c).tcp.calls ≡ accepted c.tcp.calls
unfolding close stop_heartbeat
close-accepted c = ground arith

pub close-IsWritten : (c : WebSocketConnection) → IsWritten c → IsWritten (close c)
close-IsWritten c = same-IsWritten c (close c) (close-accepted c)

pub write_front-accepted :
    (uv : Uv) (queue : List Bytes) (c : WebSocketConnection)
    → accepted (write_front uv queue c).tcp.calls ≡ accepted c.tcp.calls
unfolding write_front close stop_heartbeat
write_front-accepted uv [] c = refl
write_front-accepted uv (front ∷ rest) c = ground arith

try_send-accepted :
    (uv : Uv) (c : WebSocketConnection) → accepted (try_send uv c).tcp.calls ≡ accepted c.tcp.calls
unfolding try_send
try_send-accepted uv c = ground (arith, write_front-accepted uv c.send_queue c)

pub start_heartbeat-accepted :
    (server : TcpServer) (now : ℕ) (c : WebSocketConnection)
    → accepted (start_heartbeat server now c).tcp.calls ≡ accepted c.tcp.calls
unfolding start_heartbeat
start_heartbeat-accepted server now c = ground arith

pub on_heartbeat_timeout-accepted :
    (server : TcpServer) (now : ℕ) (c : WebSocketConnection)
    → accepted (on_heartbeat_timeout server now c).tcp.calls ≡ accepted c.tcp.calls
unfolding on_heartbeat_timeout
on_heartbeat_timeout-accepted server now c = ground (arith, close-accepted c)

pub on_write_complete-accepted :
    (uv : Uv) (c : WebSocketConnection) (status : ℤ)
    → accepted (on_write_complete uv c status).tcp.calls ≡ accepted c.tcp.calls
unfolding on_write_complete finish_graceful
on_write_complete-accepted uv c status = ground (
  arith,
  close-accepted c,
  try_send-accepted uv (record c { tcp = record (c.tcp) { is_writing = false } }),
)

frames-append :
    (ms : List Message) (m : Message)
    → frames ms ++ make_frame m.payload m.opcode ∷ [] ≡ frames (ms ++ m ∷ [])
frames-append [] m = refl
frames-append (n ∷ ms) m = ap (λ fs. make_frame n.payload n.opcode ∷ fs) (frames-append ms m)

pub send_frame-IsWritten :
    (uv : Uv) (c : WebSocketConnection) (bytes : Bytes) (opcode : ℕ)
    → is_sent opcode ≡ true
    → IsWritten c
    → IsWritten (send_frame uv c bytes opcode)
unfolding send_frame
send_frame-IsWritten uv c bytes opcode s (ms, f, all) =
    let m : Message = record { opcode = opcode; payload = bytes } in
    (
      ms ++ m ∷ [],
      try_send-accepted uv _ ∙ ap (λ fs. fs ++ make_frame bytes opcode ∷ []) f ∙ frames-append ms m,
      All-append (λ m. is_sent m.opcode ≡ true) ms (m ∷ []) all (s, tt),
    )

module _ (uv : Uv) (sha1 : Bytes → Bytes) (server : TcpServer) where
  opened-IsWritten :
      (now : ℕ) (c : WebSocketConnection)
      → IsWritten c
      → IsWritten (on_handshake_complete uv sha1 now server c).1
  unfolding on_handshake_complete on_new_connection
  opened-IsWritten now c v = elim (Option-cases server.on_open) [
    | inl n ↦ rw (n, on_new_connection) begun-IsWritten
    | inr (callback, n) ↦
        rw (n, on_new_connection)
          (serve_rule uv (count_opened server) IsWritten close-IsWritten (send_frame-IsWritten uv)
            (λ c b v. v) (λ c v. v) (callback (peer begun.tcp)) _ begun-IsWritten)
  ]
    where
      begun : WebSocketConnection
      begun = start_heartbeat server now (record c { state = in_open })

      begun-IsWritten : IsWritten begun
      begun-IsWritten = same-IsWritten c begun (start_heartbeat-accepted server now _) v

  Step-IsWritten : {s t : Driven} → Step uv sha1 server s t → IsWritten s.conn → IsWritten t.conn
  unfolding send_handshake_response
  Step-IsWritten (starts d now) v =
      same-IsWritten d.conn (start_heartbeat server now d.conn)
        (start_heartbeat-accepted server now d.conn) v
  Step-IsWritten (sends d bytes) v =
      send_rule uv server IsWritten close-IsWritten (send_frame-IsWritten uv) (λ c b v. v)
        (λ c v. v) d.conn bytes v
  Step-IsWritten (ends d) v = close-IsWritten d.conn v
  Step-IsWritten (times_out d now) v =
      same-IsWritten d.conn (on_heartbeat_timeout server now d.conn)
        (on_heartbeat_timeout-accepted server now d.conn) v
  Step-IsWritten (receives d bytes c h e) v =
      on_data_received_rule uv server IsWritten close-IsWritten (send_frame-IsWritten uv)
        (λ c b v. v) (λ c v. v) (λ c p v. v) sha1 (λ c b v. v) (λ c k v. v) d.conn bytes v e
  Step-IsWritten (shakes_hands d now h) v = opened-IsWritten now d.conn v
  Step-IsWritten (reads_end d) v = v
  Step-IsWritten (reports d status h) v =
      same-IsWritten d.conn (on_write_complete uv d.conn status)
        (on_write_complete-accepted uv d.conn status) v

  Reach-IsWritten : (now : ℕ) {d : Driven} → Reach uv sha1 server (fresh now) d → IsWritten d.conn
  Reach-IsWritten now begins = ([], refl, tt)
  Reach-IsWritten now (continues r st) = Step-IsWritten st (Reach-IsWritten now r)

-- The first of the frames are the frames of the first messages.
first_frames :
    (ms : List Message) (xs ys : List Bytes)
    → frames ms ≡ xs ++ ys
    → All (λ m. is_sent m.opcode ≡ true) ms
    → All (λ f. length f < 2 ^ 64) xs
    → (firsts : List Message) × (xs ≡ frames firsts) × All IsSent firsts
first_frames ms [] ys e s h = ([], refl, tt)
first_frames [] (x ∷ xs) ys e s h = cc
first_frames (m ∷ ms) (x ∷ xs) ys e (s, ss) (h, hs) =
    let same : make_frame m.payload m.opcode ≡ x = cc in
    let rest : frames ms ≡ xs ++ ys = cc in
    let (firsts, f, all) = first_frames ms xs ys rest ss hs in
    (
      m ∷ firsts,
      cc (same, f),
      ((s, omega (arith, ap length same, make_frame_pos m.payload m.opcode, h)), all),
    )

-- What a client reads off the frames that were written.
pub written_stream :
    (c : WebSocketConnection)
    → IsWritten c
    → accepted c.tcp.calls ≡ sent c.tcp.calls ++ c.send_queue
    → All (λ f. length f < 2 ^ 64) (sent c.tcp.calls)
    → let stream = concat (sent c.tcp.calls) in
      (ms : List Message) × (sent c.tcp.calls ≡ frames ms)
      × (All IsSent ms)
      × (read_stream (length stream) stream ≡ some ms)
written_stream c (ms, f, s) order h =
    let (firsts, e, all) = first_frames ms (sent c.tcp.calls) c.send_queue (sym f ∙ order) s h in
    let whole = concat (frames firsts) in
    (firsts, e, all, rw (← e) at (read_stream-frames firsts (length whole) all (omega arith)))

-- Whatever a WebSocket connection goes through from its creation, where no frame has 2 ^ 64 bytes:
-- all that it wrote so far, behind the response to the handshake, is a stream of whole frames, with
-- the opcodes of texts, closes and pongs, and a client that reads it to its end gets their messages,
-- in order.
Reach-read_stream :
    (uv : Uv) (sha1 : Bytes → Bytes) (server : TcpServer) (now : ℕ) {d : Driven}
    → Reach uv sha1 server (fresh now) d
    → All (λ f. length f < 2 ^ 64) (sent d.conn.tcp.calls)
    → let stream = concat (sent d.conn.tcp.calls) in
      (ms : List Message) × (sent d.conn.tcp.calls ≡ frames ms)
      × (All IsSent ms)
      × (read_stream (length stream) stream ≡ some ms)
Reach-read_stream uv sha1 server now {d} r h =
    written_stream d.conn (Reach-IsWritten uv sha1 server now r)
      (Reach-IsOrderly uv sha1 server now r).fifo h
