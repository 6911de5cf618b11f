-- ===== src/Tests/WebSocket.antt =====
-- src/uv_net/websocket_connection.cpp at concrete inputs.
use libuv_server.Prelude.{
  ℕ, ◌≡◌, refl, true, false, some, none, List, [], ◌∷◌, ◌++◌, pos, negsuc, arith, Bytes, codes,
  write_be64,
}
use libuv_server.Config.{default_config}
use libuv_server.Uv.{Uv, closes}
use libuv_server.Tcp.State.{TcpServer}
use libuv_server.Tcp.Server.{make_server}
use libuv_server.WebSocket.Frame.{make_frame}
use libuv_server.WebSocket.Frame.RoundTrip.{read_frame, read_frame-make_frame}
use libuv_server.WebSocket.Handshake.{handshake_key, search_from}
use libuv_server.WebSocket.Parser.{
  Parser, Message, initial, unmask, round_in, round_header, read_masking_key, parse_header,
  zero_frame,
}
use libuv_server.WebSocket.Parser.Loop.{parse_loop, is_blocked, parse_loop_ends_iff}
use libuv_server.WebSocket.Parser.Aligned.{aligned_frame_arrives}
use libuv_server.WebSocket.Parser.Payload.{feed}
use libuv_server.WebSocket.Parser.Blocked.{whole_frame_blocks, long_length_blocks}
use libuv_server.WebSocket.Connection.{WebSocketConnection, in_open, in_closing, make_web_socket}
use libuv_server.WebSocket.Receive.{process_close_frame, parse_frame, on_data_received_in}
use libuv_server.WebSocket.Stuck
use libuv_server.WebSocket.Stuck.{close_frame_never_closes}
use libuv_server.WebSocket.Activity.{
  Activity, receives, sends, reports, run, active_connection_times_out,
}
use libuv_server.Uv.{write, queued}
use libuv_server.WebSocket.Connection.{
  send, try_send, write_front, send_frame, on_write_complete, finish_graceful, on_heartbeat_timeout,
  close,
}

abbrev uv_works : Uv
uv_works = record { write_result = λ calls bytes. pos 0; ecanceled = negsuc 124 }

abbrev a_server : TcpServer
a_server = make_server default_config

-- A hash for the tests; the length of SHA-1's result is all that it shares with it.
abbrev a_hash : Bytes → Bytes
a_hash bytes = codes "01234567890123456789"

abbrev opened_connection : WebSocketConnection
opened_connection = record (make_web_socket 0) { state = in_open }

-- The handler that keeps the messages.
abbrev keep : Message → List Message → List Message
keep m ms = ms ++ m ∷ []

-- The key of the request in RFC 6455.
finds_key :
    handshake_key
      (codes "GET / HTTP/1.1\r\nSec-WebSocket-Key: dGhlIHNhbXBsZSBub25jZQ==\r\nOrigin: x\r\n\r\n")
    ≡ some (codes "dGhlIHNhbXBsZSBub25jZQ==")
unfolding handshake_key search_from
finds_key = refl

parse_loop_ends_iff_example :
    ((is_blocked initial ≡ false)
      → (r : Parser × List Message) × (parse_loop keep 4 initial [] (129 ∷ 5 ∷ []) ≡ some r))
    × ((is_blocked initial ≡ true)
        → (fuel : ℕ) → parse_loop keep fuel initial [] (129 ∷ 5 ∷ []) ≡ none)
parse_loop_ends_iff_example = parse_loop_ends_iff keep initial [] 129 (5 ∷ []) (omega arith)

-- "Hello" as RFC 6455 masks it.
aligned_frame_arrives_example :
    feed keep initial [] (
      (129 ∷ 133 ∷ [])
      ∷ (0x37 ∷ 0xfa ∷ 0x21 ∷ 0x3d ∷ [])
      ∷ (0x7f ∷ 0x9f ∷ [])
      ∷ (0x4d ∷ 0x51 ∷ 0x58 ∷ [])
      ∷ [])
    ≡ some (initial, record { opcode = 1; payload = codes "Hello" } ∷ [])
aligned_frame_arrives_example =
    aligned_frame_arrives keep 129 0x37 0xfa 0x21 0x3d (codes "Hello") (0x7f ∷ 0x9f ∷ [])
      ((0x4d ∷ 0x51 ∷ 0x58 ∷ []) ∷ []) [] (omega arith)
      (omega arith, (omega arith, (omega arith, (omega arith, tt))))
      (omega arith, (omega arith, (omega arith, (omega arith, (omega arith, tt)))))
      (omega arith, (omega arith, tt)) (unfold unmask in refl)

-- The same frame in one read.
whole_frame_blocks_example :
    (p : Parser) × (parse_loop keep 4 initial []
        (129 ∷ 133 ∷ 0x37 ∷ 0xfa ∷ 0x21 ∷ 0x3d ∷ 0x7f ∷ 0x9f ∷ 0x4d ∷ 0x51 ∷ 0x58 ∷ [])
      ≡ some (p, []))
    × ((fuel b : ℕ) (rest : Bytes) → parse_loop keep fuel p [] (b ∷ rest) ≡ none)
whole_frame_blocks_example =
    whole_frame_blocks keep 129 5
      (0x37 ∷ 0xfa ∷ 0x21 ∷ 0x3d ∷ 0x7f ∷ 0x9f ∷ 0x4d ∷ 0x51 ∷ 0x58 ∷ []) [] (omega arith)
      (omega arith)

long_length_blocks_example :
    (p : Parser) × (feed keep initial [] ((130 ∷ 255 ∷ []) ∷ write_be64 65536 ∷ []) ≡ some (p, []))
    × (p.current_frame.payload_length ≡ 0)
    × ((fuel b : ℕ) (rest : Bytes) → parse_loop keep fuel p [] (b ∷ rest) ≡ none)
long_length_blocks_example = long_length_blocks keep 130 65536 [] (omega arith)

read_frame-make_frame_example :
    read_frame (make_frame (codes "hi") 1 ++ 136 ∷ [])
    ≡ some (record { fin = true; opcode = 1; payload = codes "hi"; rest = 136 ∷ [] })
read_frame-make_frame_example =
    read_frame-make_frame (codes "hi") (136 ∷ []) 1 (omega arith) (omega arith)

-- The answer to a close frame is written, and the header of a ping comes in.
abbrev pinged : WebSocketConnection
pinged = record answered {
  parser = record initial {
    parse_state = read_masking_key;
    current_frame = record zero_frame { fin = true; opcode = 9 };
  };
}
  where
    answered : WebSocketConnection
    answered =
        on_write_complete uv_works (process_close_frame uv_works opened_connection (3 ∷ 232 ∷ []))
          (pos 0)

-- The heartbeat runs out after that, and the user closes.
close_frame_never_closes_example :
    let c = close (on_heartbeat_timeout a_server 500000 pinged) in
    (c.state ≡ in_closing) × (closes c.tcp.calls ≡ 0)
unfolding parse_frame parse_loop round_in round_header parse_header on_data_received_in
    process_close_frame close send_frame try_send write_front on_write_complete finish_graceful
close_frame_never_closes_example =
    close_frame_never_closes uv_works a_hash a_server opened_connection (3 ∷ 232 ∷ []) refl (
      Stuck.ends (
        Stuck.times_out 500000
          (Stuck.receives (137 ∷ 0 ∷ []) refl (Stuck.reports (pos 0) Stuck.at_once))))

-- A text goes out, its write is reported, and the first byte of a frame comes in.
abbrev in_use : List Activity
in_use = sends (1 ∷ []) ∷ reports (pos 0) ∷ receives (129 ∷ []) ∷ []

-- The connection after that.
abbrev used : WebSocketConnection
used = record opened_connection {
  tcp = record (opened_connection.tcp) {
    calls = write (make_frame (1 ∷ []) 1) (pos 0) ∷ queued (make_frame (1 ∷ []) 1) ∷ [];
  };
  parser = record initial { bytes_read = 1; buffer = 129 ∷ [] };
}

active_connection_times_out_example :
    closes (on_heartbeat_timeout a_server 150000 used).tcp.calls ≡ 1
unfolding run send try_send write_front send_frame on_write_complete finish_graceful parse_frame
    parse_loop round_in round_header
active_connection_times_out_example =
    active_connection_times_out uv_works a_server in_use 150000 opened_connection used refl refl
      refl refl refl (omega arith)
