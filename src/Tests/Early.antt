-- ===== src/Tests/Early.antt =====
-- The handshake and the frames of src/uv_net/websocket_connection.cpp at concrete inputs: a request,
-- what follows it early, fragments, and a frame with no payload.
use libuv_server.Prelude.{ℕ, ◌≡◌, refl, some, [], ◌∷◌, ◌++◌, ◌↔◌, pos, negsuc, arith, Bytes, codes}
use libuv_server.Config.{default_config}
use libuv_server.Connection.{CallbackMessage, send_bytes}
use libuv_server.Uv.{Uv, delivered}
use libuv_server.Tcp.State.{TcpServer}
use libuv_server.Tcp.Server.{make_server, set_on_message}
use libuv_server.WebSocket.Handshake.{handshake_key, handshake_response, request_ends, search_from}
use libuv_server.WebSocket.Handshake.Exact.{KeyLine, handshake_key_iff}
use libuv_server.WebSocket.Parser.{initial, unmask}
use libuv_server.WebSocket.Connection.{
  WebSocketConnection, in_handshake, in_open, in_closing, make_web_socket,
}
use libuv_server.WebSocket.Receive.{process_frame, parse_frame}
use libuv_server.WebSocket.Receive.Again.{answers, early_reads_answered_again}
use libuv_server.WebSocket.Frame.{make_frame}
use libuv_server.WebSocket.Receive.Answered.{IsAfter}
use libuv_server.WebSocket.Receive.Answered.Sequence.{frames_answered}
use libuv_server.WebSocket.Receive.Client.{ClientFrame, IsMasked, frame_reads, all_reads}
use libuv_server.WebSocket.Receive.Empty.{empty_frame_waits}
use libuv_server.WebSocket.Receive.Fragmented.{IsContinuation, later_fragments_lost}
use libuv_server.WebSocket.Receive.Frames.{parse_frames}
use libuv_server.WebSocket.Receive.Reads.{receive_all}
use libuv_server.WebSocket.Receive.Separate.{with_parser}

abbrev uv_works : Uv
uv_works = record { write_result = λ calls bytes. pos 0; ecanceled = negsuc 124 }

-- A hash for the tests; the length of SHA-1's result is all that it shares with it.
abbrev a_hash : Bytes → Bytes
a_hash bytes = codes "01234567890123456789"

abbrev echo : CallbackMessage
echo peer bytes = send_bytes bytes ∷ []

abbrev echo_server : TcpServer
echo_server = set_on_message (make_server default_config) (some echo)

abbrev a_request : Bytes
a_request = codes "G\r\nSec-WebSocket-Key: dGhl\r\n\r\n"

handshake_key_iff_example :
    (handshake_key a_request ≡ some (codes "dGhl")) ↔ KeyLine a_request (codes "dGhl")
handshake_key_iff_example = handshake_key_iff a_request (codes "dGhl") (omega arith)

-- The request was read, and a frame comes before the write of the response is reported.
abbrev asked : WebSocketConnection
asked = record (make_web_socket 0) { handshake_buffer = a_request }

early_reads_answered_again_example :
    (d : WebSocketConnection) × (receive_all uv_works a_hash echo_server asked
        ((129 ∷ 0x85 ∷ []) ∷ (1 ∷ []) ∷ [])
      ≡ some d)
    × (answers d.tcp.calls
        ≡ handshake_response a_hash (codes "dGhl") ∷ handshake_response a_hash (codes "dGhl") ∷ [])
    × (d.parser ≡ initial)
    × (delivered d.tcp.calls ≡ [])
    × (d.state ≡ in_handshake)
early_reads_answered_again_example =
    early_reads_answered_again uv_works a_hash echo_server (codes "dGhl")
      ((129 ∷ 0x85 ∷ []) ∷ (1 ∷ []) ∷ []) asked refl (omega arith)
      (unfold request_ends search_from in refl) (unfold handshake_key search_from in refl)

-- "Hel" and "lo" as fragments, with the key of RFC 6455.
abbrev first_part : ClientFrame
first_part = record {
  h0 = 1;
  k0 = 0x37;
  k1 = 0xfa;
  k2 = 0x21;
  k3 = 0x3d;
  payload = codes "Hel";
  piece = 0x7f ∷ 0x9f ∷ 0x4d ∷ [];
  pieces = [];
}

abbrev second_part : ClientFrame
second_part = record {
  h0 = 128;
  k0 = 0x37;
  k1 = 0xfa;
  k2 = 0x21;
  k3 = 0x3d;
  payload = codes "lo";
  piece = 0x5b ∷ 0x95 ∷ [];
  pieces = [];
}

first_part-IsMasked : IsMasked first_part
unfolding unmask
first_part-IsMasked = record {
  short = omega arith;
  key_bytes = (omega arith, (omega arith, (omega arith, (omega arith, tt))));
  payload_bytes = (omega arith, (omega arith, (omega arith, tt)));
  filled = (omega arith, tt);
  masked = refl;
}

second_part-IsContinuation : IsContinuation second_part
unfolding unmask
second_part-IsContinuation = record {
  opcode_0 = refl;
  frame = record {
    short = omega arith;
    key_bytes = (omega arith, (omega arith, (omega arith, (omega arith, tt))));
    payload_bytes = (omega arith, (omega arith, tt));
    filled = (omega arith, tt);
    masked = refl;
  };
}

abbrev opened_connection : WebSocketConnection
opened_connection = record (make_web_socket 0) { state = in_open }

later_fragments_lost_example :
    (d : WebSocketConnection) × (parse_frames uv_works echo_server opened_connection
        (frame_reads first_part)
      ≡ some d)
    × (parse_frames uv_works echo_server opened_connection
          (frame_reads first_part ++ all_reads (second_part ∷ []))
        ≡ some d)
    × (delivered d.tcp.calls ≡ codes "Hel" ∷ [])
    × (d.parser ≡ initial)
later_fragments_lost_example =
    later_fragments_lost uv_works echo_server echo opened_connection first_part (second_part ∷ [])
      refl refl refl refl first_part-IsMasked refl (second_part-IsContinuation, tt)

-- A close with no body.
empty_frame_waits_example :
    (w : WebSocketConnection) × (parse_frames uv_works echo_server opened_connection
        ((136 ∷ 128 ∷ []) ∷ (1 ∷ 2 ∷ 3 ∷ 4 ∷ []) ∷ [])
      ≡ some w)
    × (w ≡ with_parser w.parser opened_connection)
    × ((b : ℕ) (rest : Bytes)
        → parse_frame uv_works echo_server w (b ∷ rest)
          ≡ parse_frame uv_works echo_server
              (with_parser initial (
                process_frame uv_works echo_server
                  (record { opcode = 8; payload = [] })
                  opened_connection))
              (b ∷ rest))
empty_frame_waits_example =
    empty_frame_waits uv_works echo_server opened_connection 136 1 2 3 4 refl

-- "Hel" as a text, a ping and a close with the payload "lo", and a text behind the close.
abbrev ping_frame : ClientFrame
ping_frame = record second_part { h0 = 0x89 }

abbrev close_frame : ClientFrame
close_frame = record second_part { h0 = 0x88 }

abbrev quiet : CallbackMessage
quiet peer bytes = []

abbrev quiet_server : TcpServer
quiet_server = set_on_message (make_server default_config) (some quiet)

short_frame-IsMasked : (h0 : ℕ) → IsMasked (record second_part { h0 = h0 })
unfolding unmask
short_frame-IsMasked h0 = record {
  short = omega arith;
  key_bytes = (omega arith, (omega arith, (omega arith, (omega arith, tt))));
  payload_bytes = (omega arith, (omega arith, tt));
  filled = (omega arith, tt);
  masked = refl;
}

frames_answered_example :
    (d : WebSocketConnection) × (parse_frames uv_works quiet_server opened_connection
        (all_reads (first_part ∷ ping_frame ∷ close_frame ∷ first_part ∷ []))
      ≡ some d)
    × (IsAfter opened_connection
        (codes "Hel" ∷ [])
        (make_frame (codes "lo") 10 ∷ make_frame (codes "lo") 8 ∷ [])
        in_closing
        d)
    × (d.parser ≡ initial)
frames_answered_example =
    frames_answered uv_works (λ calls bytes. refl) quiet_server quiet refl (λ p bytes. refl) refl
      (first_part ∷ ping_frame ∷ close_frame ∷ first_part ∷ []) opened_connection
      (
        first_part-IsMasked,
        (short_frame-IsMasked 0x89, (short_frame-IsMasked 0x88, (first_part-IsMasked, tt))),
      )
      refl refl
