-- ===== src/Echo/Session.antt =====
-- example/echo_server.cpp and example/ws_echo_server.cpp: a whole session of a WebSocket client, from
-- the request of its handshake to the answer to a message.
use libuv_server.Prelude.{
  ℕ, ◌^◌, ◌<◌, ◌≡◌, ap, ◌∙◌, true, false, some, List, [], ◌∷◌, ◌++◌, pos, arith, length, concat,
  Bytes,
}
use libuv_server.Uv.{Uv, Calls, accepted, write_handshake}
use libuv_server.Tcp.State.{TcpServer}
use libuv_server.WebSocket.Frame.{make_frame}
use libuv_server.WebSocket.Parser.{initial}
use libuv_server.WebSocket.Handshake.{key_header, crlf, request_ends, handshake_response}
use libuv_server.WebSocket.Handshake.Request.{IsAbsent, request}
use libuv_server.WebSocket.Connection.{WebSocketConnection}
use libuv_server.WebSocket.Receive.{send_handshake_response}
use libuv_server.WebSocket.Receive.Answer.{request_answered}
use libuv_server.WebSocket.Receive.Reads.{receive_all, receive_all-step, receive_all-collects}
use libuv_server.WebSocket.Server.{on_handshake_complete}
use libuv_server.WebSocket.Wire.{frames}
use libuv_server.WebSocket.Receive.Client.{ClientFrame, frame_reads, framed}
use libuv_server.Echo.Frames.{IsEcho, IsText, frame_processed, frame_answered}
use libuv_server.WebSocket.Receive.{process_frame}
use libuv_server.WebSocket.Receive.Separate.{with_parser}
use libuv_server.Echo.Opening.{greeting, IsWaiting, opens, opened-IsEcho, answered-IsWaiting}

-- A session with the echo server, where `uv_write` does not fail. A client's request comes in any
-- reads, of which the last is the first to hold its end; the header of the key stands nowhere before
-- its line, and the key has no line break. Then the reads return, and the response to the key is
-- written. When its write has ended, the client sends a text or a binary message of 1 to 65535 bytes
-- as one masked frame, whose header, length and key come in reads of their own. These reads return,
-- and what was accepted for sending are two frames: the greeting, and a text of the bytes that the
-- client sent.
pub session_answered :
    (uv : Uv) (sha1 : Bytes → Bytes) (now : ℕ) (server : TcpServer) (c : WebSocketConnection)
    (firsts : List Bytes) (last before key after : Bytes) (f : ClientFrame)
    → ((calls : Calls) (b : Bytes) → uv.write_result calls b ≡ pos 0)
    → IsEcho server
    → IsWaiting c
    → c.handshake_buffer ≡ []
    → request_ends (concat firsts) ≡ false
    → concat firsts ++ last ≡ request before key after
    → request_ends (request before key after) ≡ true
    → IsAbsent key_header before (key_header ++ (key ++ (crlf ++ after)))
    → IsAbsent crlf key (crlf ++ after)
    → length key < 2 ^ 64
    → IsText f
    → (c1 : WebSocketConnection) × (c3 : WebSocketConnection) × (receive_all uv sha1 server c
          (firsts ++ last ∷ [])
        ≡ some c1)
      × (c1.tcp.calls ≡ write_handshake (handshake_response sha1 key) (pos 0) ∷ c.tcp.calls)
      × (let opening = on_handshake_complete uv sha1 now server c1 in
          receive_all uv sha1 opening.0 opening.1 (frame_reads f) ≡ some c3)
      × (accepted c3.tcp.calls
          ≡ frames (greeting ∷ record { opcode = 1; payload = f.payload } ∷ []))
unfolding send_handshake_response receive_all
session_answered uv sha1 now server c firsts last before key after f works echo v empty early whole
      ends absent no_break short m =
    let text = request before key after in
    let collected = record c { handshake_buffer = c.handshake_buffer ++ concat firsts } in
    let c1 = send_handshake_response uv sha1 (record collected { handshake_buffer = text }) key in
    let c2 = (on_handshake_complete uv sha1 now server c1).1 in
    let server2 = (on_handshake_complete uv sha1 now server c1).0 in
    let reaches =
      receive_all-collects uv sha1 server firsts (last ∷ []) c v.waits (rw empty early)
      ∙ receive_all-step uv sha1 server collected c1 last [] (
          request_answered uv sha1 server collected last before key after v.waits
            (ap (λ b. (b ++ concat firsts) ++ last) empty ∙ whole) ends absent no_break short) in
    let open2 = opens uv sha1 now server c1 works echo (answered-IsWaiting uv sha1 c text key v) in
    let echo2 = opened-IsEcho uv sha1 now server c1 echo in
    let more =
      frame_answered uv server2 (framed f) c2 echo2 m.text_or_binary open2.wired.is_open
        open2.wired.not_graceful (omega (arith, ap length open2.empty_queue)) in
    (
      c1,
      with_parser initial (process_frame uv server2 (framed f) c2),
      reaches,
      ap (λ r. write_handshake (handshake_response sha1 key) r ∷ c.tcp.calls)
          (works c.tcp.calls (handshake_response sha1 key)),
      frame_processed uv sha1 server2 c2 f m open2.wired.is_open open2.at_start,
      more ∙ ap (λ fs. fs ++ make_frame f.payload 1 ∷ []) open2.greeted,
    )
