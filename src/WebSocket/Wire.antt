-- ===== src/WebSocket/Wire.antt =====
-- src/uv_net/websocket_connection.cpp: what a client reads off the stream that a connection writes
-- once its handshake is answered.
pub mod Written
use libuv_server.Prelude.{
  ℕ, zero, suc, ◌+◌, ◌%◌, ◌^◌, ◌≤◌, ◌<◌, ◌≡◌, refl, sym, ap, ◌∙◌, Bool, true, Option, none, some,
  List, [], ◌∷◌, ◌++◌, append_assoc, append-nil, arith, length, length-append, concat, All, Bytes,
  ◌==◌, ==_iff, ◌||◌,
}
use libuv_server.WebSocket.Frame.{make_frame, length_bytes}
use libuv_server.WebSocket.Frame.RoundTrip.{read_frame, read_frame-make_frame}
use libuv_server.WebSocket.Parser.{Message}
use libuv_server.WebSocket.Rules.{is_sent}

-- A client that reads one frame after the other to the end of the stream, on fuel; `none` where the
-- stream does not end with a frame.
pub read_stream : ℕ → Bytes → Option (List Message)
read_stream fuel [] = some []
read_stream zero (b ∷ bytes) = none
read_stream (suc fuel) (b ∷ bytes) = elim (read_frame (b ∷ bytes)) [
  | none ↦ none
  | some r ↦ elim (read_stream fuel r.rest) [
    | none ↦ none
    | some ms ↦ some (record { opcode = r.opcode; payload = r.payload } ∷ ms)
  ]
]

-- The frames that `SendFrame` makes of messages.
abbrev pub frames : List Message → List Bytes
frames [] = []
frames (m ∷ ms) = make_frame m.payload m.opcode ∷ frames ms

-- With one of the opcodes that a server sends, and of a length that a `size_t` counts.
abbrev pub IsSent : Message → Type 0
IsSent m = (is_sent m.opcode ≡ true) × (length m.payload < 2 ^ 64)

small_opcode : (opcode : ℕ) → is_sent opcode ≡ true → opcode < 16
small_opcode opcode h = ground arith

read_sent :
    (m : Message) (rest : Bytes)
    → IsSent m
    → read_frame (make_frame m.payload m.opcode ++ rest)
      ≡ some (record { fin = true; opcode = m.opcode; payload = m.payload; rest = rest })
read_sent m rest h =
    let small = small_opcode m.opcode h.0 in
    let same : m.opcode % 16 ≡ m.opcode = omega (arith, small) in
    rw same at (read_frame-make_frame m.payload rest m.opcode (omega (arith, small)) h.1)

make_frame_pos :
    (payload : Bytes) (opcode : ℕ) → length payload < length (make_frame payload opcode)
unfolding make_frame
make_frame_pos payload opcode = omega (arith, length-append (length_bytes (length payload)) payload)

read_stream_step :
    (fuel : ℕ) (m : Message) (rest : Bytes) (ms : List Message)
    → IsSent m
    → read_stream fuel rest ≡ some ms
    → read_stream (suc fuel) (make_frame m.payload m.opcode ++ rest) ≡ some (m ∷ ms)
unfolding read_stream make_frame
read_stream_step fuel m rest ms h e = rw (read_sent m rest h, read_stream) (rw e refl)

-- A client reads back the messages of a stream of frames, whole and in order.
pub read_stream-frames :
    (ms : List Message) (fuel : ℕ)
    → All IsSent ms
    → length (concat (frames ms)) ≤ fuel
    → read_stream fuel (concat (frames ms)) ≡ some ms
unfolding read_stream
read_stream-frames [] fuel h le = refl
read_stream-frames (m ∷ ms) zero h le = absurd (
    omega (
      arith,
      make_frame_pos m.payload m.opcode,
      length-append (make_frame m.payload m.opcode) (concat (frames ms)),
    ))
read_stream-frames (m ∷ ms) (suc fuel) h le = read_stream_step fuel m (concat (frames ms)) ms h.0 (
    read_stream-frames ms fuel h.1 (
      omega (
        arith,
        make_frame_pos m.payload m.opcode,
        length-append (make_frame m.payload m.opcode) (concat (frames ms)),
      )))
