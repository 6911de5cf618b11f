-- ===== src/WebSocket/Receive/Client.antt =====
-- src/uv_net/websocket_connection.cpp: whole frames that a client sends with their parts in reads of
-- their own, and what a connection makes of them one after the other.
use libuv_server.Prelude.{
  ℕ, ◌<◌, ◌≡◌, sym, ap, ◌∙◌, bit_and, some, List, [], ◌∷◌, ◌++◌, length, concat, All, Bytes,
  AreBytes, arith, Option-cases, inl, inr,
}
use libuv_server.Uv.{Uv}
use libuv_server.Tcp.State.{TcpServer}
use libuv_server.WebSocket.Parser.{Message, initial, unmask}
use libuv_server.WebSocket.Parser.Aligned.{client_reads, aligned_frame_arrives}
use libuv_server.WebSocket.Connection.{WebSocketConnection}
use libuv_server.WebSocket.Receive.{process_frame, parse_frame}
use libuv_server.WebSocket.Receive.Frames.{keep, process_all, parse_frames, parse_frames-feed}
use libuv_server.WebSocket.Receive.Separate.{with_parser}

-- The first byte of the header of a frame, its key, its payload without the mask, and the pieces in
-- which the masked payload comes.
pub record ClientFrame : Type 0 where
  pub h0 : ℕ
  pub k0 : ℕ
  pub k1 : ℕ
  pub k2 : ℕ
  pub k3 : ℕ
  pub payload : Bytes
  pub piece : Bytes
  pub pieces : List Bytes

-- A masked frame of 1 to 65535 bytes.
pub record IsMasked (f : ClientFrame) : Type 0 where
  pub short : length f.payload < 65536
  pub key_bytes : AreBytes (f.k0 ∷ f.k1 ∷ f.k2 ∷ f.k3 ∷ [])
  pub payload_bytes : AreBytes f.payload
  pub filled : All (λ p. 0 < length p) (f.piece ∷ f.pieces)
  pub masked : concat (f.piece ∷ f.pieces) ≡ unmask (f.k0 ∷ f.k1 ∷ f.k2 ∷ f.k3 ∷ []) 0 f.payload

-- Its reads: the header, the length and the key come in reads of their own.
abbrev pub frame_reads : ClientFrame → List Bytes
frame_reads f =
    client_reads f.h0 (f.k0 ∷ f.k1 ∷ f.k2 ∷ f.k3 ∷ []) (length f.payload) (f.piece ∷ f.pieces)

abbrev pub all_reads : List ClientFrame → List Bytes
all_reads [] = []
all_reads (f ∷ fs) = frame_reads f ++ all_reads fs

-- The message of the frame.
abbrev pub framed : ClientFrame → Message
framed f = record { opcode = bit_and f.h0 0x0f; payload = f.payload }

module _ (uv : Uv) (server : TcpServer) where
  -- Between two frames, the reads of a frame process its message.
  pub frame_parsed :
      (c : WebSocketConnection) (f : ClientFrame)
      → IsMasked f
      → c.parser ≡ initial
      → parse_frames uv server c (frame_reads f)
        ≡ some (with_parser initial (process_frame uv server (framed f) c))
  unfolding process_all
  frame_parsed c f m at =
      let arrives =
        aligned_frame_arrives keep f.h0 f.k0 f.k1 f.k2 f.k3 f.payload f.piece f.pieces [] m.short
          m.key_bytes m.payload_bytes m.filled m.masked in
      let (new, one, ran) =
        parse_frames-feed uv server (frame_reads f) initial [] (framed f ∷ []) c (rw at arrives) in
      ran ∙ ap (λ ms. some (with_parser initial (process_all uv server ms c))) (sym one)

  pub parse_frames-append :
      (reads more : List Bytes) (c : WebSocketConnection) {d : WebSocketConnection}
      → parse_frames uv server c reads ≡ some d
      → parse_frames uv server c (reads ++ more) ≡ parse_frames uv server d more
  unfolding parse_frames
  parse_frames-append [] more c e = ground arith
  parse_frames-append (bytes ∷ reads) more c e =
      elim (Option-cases (parse_frame uv server c bytes)) [
        | inl n ↦ let e' = rw (n, parse_frames) at e in cc
        | inr (c', n) ↦
            rw (n, parse_frames) (parse_frames-append reads more c' (rw (n, parse_frames) at e))
      ]

  -- The reads of a frame, and then more of them.
  pub frame_parsed-more :
      (c : WebSocketConnection) (f : ClientFrame) (more : List Bytes)
      → IsMasked f
      → c.parser ≡ initial
      → parse_frames uv server c (frame_reads f ++ more)
        ≡ parse_frames uv server (with_parser initial (process_frame uv server (framed f) c)) more
  frame_parsed-more c f more m at =
      parse_frames-append (frame_reads f) more c (frame_parsed c f m at)
