-- ===== src/WebSocket/Frame.antt =====
-- src/uv_net/websocket_connection.cpp: the bytes that `SendFrame` writes for a frame.
pub mod RoundTrip
use libuv_server.Prelude.{
  ℕ, ◌%◌, ◌^◌, bit_and, bit_or, Bool, true, false, [], ◌∷◌, ◌++◌, ltb, if◌then◌else◌, length, Bytes,
  write_be16, write_be64,
}

-- From the second byte on: the length, without a mask. `len` is a `size_t`.
unfoldable pub length_bytes : ℕ → Bytes
length_bytes len =
    if ltb len 126
    then bit_or 0 (len % 2 ^ 8) ∷ []
    else if ltb len 65536
    then bit_or 0 126 ∷ write_be16 (len % 2 ^ 16)
    else bit_or 0 127 ∷ write_be64 len

-- The frame that goes into the send queue.
unfoldable pub make_frame : Bytes → ℕ → Bytes
make_frame bytes opcode = bit_or 128 (bit_and opcode 0x0f) ∷ (length_bytes (length bytes) ++ bytes)
