-- ===== src/Echo/Frames.antt =====
-- example/echo_server.cpp and example/ws_echo_server.cpp: the WebSocket server's answer to a text.
use libuv_server.Prelude.{
  ◌<◌, ◌≡◌, refl, ◌∙◌, bit_and, true, false, none, some, [], ◌∷◌, ◌++◌, arith, length, Bytes, pos,
  ◌||◌, ◌==◌,
}
use libuv_server.Uv.{Uv, accepted, message}
use libuv_server.WebSocket.Frame.{make_frame}
use libuv_server.WebSocket.Frame.RoundTrip.{read_frame, read_frame-make_frame}
use libuv_server.WebSocket.Parser.{Message, initial}
use libuv_server.WebSocket.Connection.{
  WebSocketConnection, in_open, try_send, send_frame, send, serve,
}
use libuv_server.WebSocket.Receive.{
  on_message, process_text_frame, process_binary_frame, process_frame,
}
use libuv_server.WebSocket.Receive.Client.{ClientFrame, IsMasked, frame_reads, framed, frame_parsed}
use libuv_server.WebSocket.Receive.Separate.{with_parser}
use libuv_server.Tcp.State.{TcpServer}
use libuv_server.WebSocket.Receive.Reads.{receive_all, receive_all-parse_frames}
use libuv_server.WebSocket.Wire.Written.{write_front-accepted}
use libuv_server.Echo.{ws_on_open, ws_on_message}

-- A server with the settings of the echo server, whatever its counters are.
pub record IsEcho (s : TcpServer) : Type 0 where
  pub on_open : s.on_open ≡ some ws_on_open
  pub on_message : s.on_message ≡ some ws_on_message
  pub no_protocol : s.server_protocol ≡ none
  pub limit : s.config.max_send_queue_size ≡ 1000
  pub interval : s.config.heartbeat_interval ≡ pos 60000

send-accepted :
    (uv : Uv) (server : TcpServer) (c : WebSocketConnection) (bytes : Bytes)
    → c.state ≡ in_open
    → c.is_closing_gracefully ≡ false
    → length c.send_queue < server.config.max_send_queue_size
    → accepted (send uv server c bytes).tcp.calls ≡ accepted c.tcp.calls ++ make_frame bytes 1 ∷ []
unfolding send send_frame try_send
send-accepted uv server c bytes o g room = ground (arith, write_front-accepted uv _ _)

message_answered :
    (uv : Uv) (server : TcpServer) (c : WebSocketConnection) (bytes : Bytes)
    → IsEcho server
    → c.state ≡ in_open
    → c.is_closing_gracefully ≡ false
    → length c.send_queue < 1000
    → accepted (on_message uv server c bytes).tcp.calls
      ≡ accepted c.tcp.calls ++ make_frame bytes 1 ∷ []
unfolding on_message serve
message_answered uv server c bytes v o g room =
    rw (v.on_message, on_message)
      (send-accepted uv server
        (record c { tcp = record (c.tcp) { calls = message bytes ∷ c.tcp.calls } }) bytes o g
        (omega (arith, v.limit, room)))

pub frame_answered :
    (uv : Uv) (server : TcpServer) (m : Message) (c : WebSocketConnection)
    → IsEcho server
    → ((m.opcode == 1) || (m.opcode == 2)) ≡ true
    → c.state ≡ in_open
    → c.is_closing_gracefully ≡ false
    → length c.send_queue < 1000
    → accepted (process_frame uv server m c).tcp.calls
      ≡ accepted c.tcp.calls ++ make_frame m.payload 1 ∷ []
unfolding process_frame process_text_frame process_binary_frame
frame_answered uv server m c v op o g room =
    rw v.no_protocol (ground (arith, message_answered uv server c m.payload v o g room))

-- A text or a binary message of 1 to 65535 bytes that a client sends as one masked frame.
pub record IsText (f : ClientFrame) : Type 0 where
  pub text_or_binary : ((bit_and f.h0 0x0f == 1) || (bit_and f.h0 0x0f == 2)) ≡ true
  pub frame : IsMasked f

-- Behind the handshake and between two frames, the reads of a frame process its message.
pub frame_processed :
    (uv : Uv) (sha1 : Bytes → Bytes) (server : TcpServer) (c : WebSocketConnection)
    (f : ClientFrame)
    → IsText f
    → c.state ≡ in_open
    → c.parser ≡ initial
    → receive_all uv sha1 server c (frame_reads f)
      ≡ some (with_parser initial (process_frame uv server (framed f) c))
frame_processed uv sha1 server c f m o at =
    receive_all-parse_frames uv sha1 server (frame_reads f) c (λ h. cc)
    ∙ frame_parsed uv server c f m.frame at

-- A server with the settings of the echo server gets a text or a binary message of 1 to 65535 bytes
-- from a client, as one masked frame whose header, length and key come in reads of their own and whose
-- payload comes in any pieces. On an open connection, in no graceful close, with fewer than 1000 frames
-- waiting and between two frames: the reads return, one frame more is accepted for sending, and a
-- client that reads that frame gets a text with exactly the bytes that it sent, and goes on behind it.
frame_comes_back :
    (uv : Uv) (sha1 : Bytes → Bytes) (server : TcpServer) (c : WebSocketConnection)
    (f : ClientFrame) (rest : Bytes)
    → IsText f
    → IsEcho server
    → c.state ≡ in_open
    → c.is_closing_gracefully ≡ false
    → length c.send_queue < 1000
    → c.parser ≡ initial
    → (c' : WebSocketConnection) × (frame : Bytes) × (receive_all uv sha1 server c (frame_reads f)
        ≡ some c')
      × (accepted c'.tcp.calls ≡ accepted c.tcp.calls ++ frame ∷ [])
      × (read_frame (frame ++ rest)
          ≡ some (record { fin = true; opcode = 1; payload = f.payload; rest = rest }))
      × (c'.parser ≡ initial)
frame_comes_back uv sha1 server c f rest m v o g room at = (
  with_parser initial (process_frame uv server (framed f) c),
  make_frame f.payload 1,
  frame_processed uv sha1 server c f m o at,
  frame_answered uv server (framed f) c v m.text_or_binary o g room,
  read_frame-make_frame f.payload rest 1 (omega arith) (omega (arith, m.frame.short)),
  refl,
)
