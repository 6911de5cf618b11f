-- ===== src/WebSocket/Receive/Fragmented.antt =====
-- src/uv_net/websocket_connection.cpp: a message that a client sends in fragments. `ParseFrame` keeps
-- the FIN bit of a frame and never looks at it.
use libuv_server.Prelude.{
  ◌≡◌, refl, sym, ap, ◌∙◌, bit_and, true, none, some, List, [], ◌∷◌, ◌++◌, arith, ◌||◌, ◌==◌, All,
}
use libuv_server.Connection.{CallbackMessage}
use libuv_server.Uv.{Uv, delivered}
use libuv_server.Tcp.State.{TcpServer}
use libuv_server.WebSocket.Parser.{Message, initial}
use libuv_server.WebSocket.Connection.{WebSocketConnection, in_open}
use libuv_server.WebSocket.Receive.{process_frame}
use libuv_server.WebSocket.Receive.Frames.{parse_frames}
use libuv_server.WebSocket.Receive.Separate.{with_parser}
use libuv_server.WebSocket.Receive.Client.{
  ClientFrame, IsMasked, frame_reads, all_reads, framed, frame_parsed, frame_parsed-more,
}
use libuv_server.WebSocket.Receive.Delivered.{process_frame-delivered}

-- A continuation frame: the opcode 0.
pub record IsContinuation (f : ClientFrame) : Type 0 where
  pub opcode_0 : bit_and f.h0 0x0f ≡ 0
  pub frame : IsMasked f

module _ (uv : Uv) (server : TcpServer) where
  continuation_ignored :
      (m : Message) (c : WebSocketConnection) → m.opcode ≡ 0 → process_frame uv server m c ≡ c
  unfolding process_frame
  continuation_ignored m c e = ground arith

  continuations_ignored :
      (fs : List ClientFrame) (c : WebSocketConnection)
      → All IsContinuation fs
      → c.parser ≡ initial
      → parse_frames uv server c (all_reads fs) ≡ some c
  unfolding parse_frames
  continuations_ignored [] c v at = refl
  continuations_ignored (f ∷ fs) c v at =
      frame_parsed-more uv server c f (all_reads fs) v.0.frame at
      ∙ ap (λ d. parse_frames uv server (with_parser initial d) (all_reads fs))
          (continuation_ignored (framed f) c v.0.opcode_0)
      ∙ ap (λ p. parse_frames uv server (with_parser p c) (all_reads fs)) (sym at)
      ∙ continuations_ignored fs c v.1 at

  -- A message in fragments of 1 to 65535 bytes, each a masked frame whose header, length and key come
  -- in reads of their own, on an open connection between two frames, with no package parser: the
  -- reads return and leave the connection exactly as the first fragment alone does, and the callback
  -- is given the first fragment as the whole message. The other fragments are lost.
  pub later_fragments_lost :
      (callback : CallbackMessage) (c : WebSocketConnection) (f : ClientFrame)
      (fs : List ClientFrame)
      → server.on_message ≡ some callback
      → server.server_protocol ≡ none
      → c.state ≡ in_open
      → c.parser ≡ initial
      → IsMasked f
      → ((bit_and f.h0 0x0f == 1) || (bit_and f.h0 0x0f == 2)) ≡ true
      → All IsContinuation fs
      → (d : WebSocketConnection) × (parse_frames uv server c (frame_reads f) ≡ some d)
        × (parse_frames uv server c (frame_reads f ++ all_reads fs) ≡ some d)
        × (delivered d.tcp.calls ≡ delivered c.tcp.calls ++ f.payload ∷ [])
        × (d.parser ≡ initial)
  later_fragments_lost callback c f fs e p o at m op v = (
    with_parser initial (process_frame uv server (framed f) c),
    frame_parsed uv server c f m at,
    frame_parsed-more uv server c f (all_reads fs) m at ∙ continuations_ignored fs _ v refl,
    process_frame-delivered uv server callback (framed f) c e p op o,
    refl,
  )
