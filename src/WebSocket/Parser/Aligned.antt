-- ===== src/WebSocket/Parser/Aligned.antt =====
-- src/uv_net/websocket_connection.cpp: a client's frame whose parts come in reads of their own.
use libuv_server.Prelude.{
  ℕ, ◌+◌, ◌<◌, ◌≡◌, refl, ap, ◌∙◌, bit_and, true, not, some, List, [], ◌∷◌, arith, ltb, ◌==◌,
  if◌then◌else◌, length, concat, All, Bytes, AreBytes, write_be16, Bool-cases, inl, inr, all_below,
  all_below_sound, ◌&&◌,
}
use libuv_server.WebSocket.Parser.{
  Message, WebSocketFrame, read_payload_length, read_masking_key, initial, round_in, round_header,
  round_payload_length, round_masking_key, parse_header, unmask,
}
use libuv_server.WebSocket.Parser.Loop.{parse_loop}
use libuv_server.WebSocket.Parser.Mask.{unmask-unmask, length-unmask}
use libuv_server.WebSocket.Parser.Payload.{feed, feed_step, in_payload, payload_pieces}

-- The header of a masked frame of `n` bytes, as the parser keeps it.
abbrev pub client_frame : ℕ → ℕ → WebSocketFrame
client_frame h0 n = record {
  fin = not (bit_and h0 0x80 == 0);
  opcode = bit_and h0 0x0f;
  masked = true;
  payload_length = n;
  masking_key = 0 ∷ 0 ∷ 0 ∷ 0 ∷ [];
}

second_table :
    all_below 126 (λ n. (bit_and (128 + n) 0x80 == 128) && (bit_and (128 + n) 0x7f == n)) ≡ true
unfolding all_below
second_table = refl

pub second_byte : (n : ℕ) → n < 126 → (bit_and (128 + n) 0x80 ≡ 128) × (bit_and (128 + n) 0x7f ≡ n)
second_byte n h = ground (arith, all_below_sound 126 _ n second_table h)

-- A masked frame of fewer than 65536 bytes as RFC 6455 has a client send it, the header, the long
-- form of the length and the key in reads of their own, the masked payload in some pieces.
abbrev pub client_reads : ℕ → Bytes → ℕ → List Bytes → List Bytes
client_reads h0 key n pieces =
    if ltb n 126
    then (h0 ∷ (128 + n) ∷ []) ∷ key ∷ pieces
    else (h0 ∷ 254 ∷ []) ∷ write_be16 n ∷ key ∷ pieces

module _ {S : Type 0} (handle : Message → S → S) where
  pub header_short :
      (h0 len : ℕ) (s : S)
      → len < 126
      → parse_loop handle 4 initial s (h0 ∷ (128 + len) ∷ [])
        ≡ some (
          record {
            parse_state = read_masking_key;
            current_frame = client_frame h0 len;
            bytes_read = 0;
            buffer = [];
          },
          s,
        )
  unfolding parse_loop round_in round_header parse_header
  header_short h0 len s h = ground (arith, second_byte len)

  header_long :
      (h0 : ℕ) (s : S)
      → parse_loop handle 4 initial s (h0 ∷ 254 ∷ [])
        ≡ some (
          record {
            parse_state = read_payload_length;
            current_frame = client_frame h0 0;
            bytes_read = 0;
            buffer = [];
          },
          s,
        )
  unfolding parse_loop round_in round_header parse_header
  header_long h0 s = refl

  length_16 :
      (h0 n : ℕ) (s : S)
      → n < 65536
      → parse_loop handle 4
          (record {
            parse_state = read_payload_length;
            current_frame = client_frame h0 0;
            bytes_read = 0;
            buffer = [];
          })
          s
          (write_be16 n)
        ≡ some (
          record {
            parse_state = read_masking_key;
            current_frame = client_frame h0 n;
            bytes_read = 0;
            buffer = [];
          },
          s,
        )
  unfolding parse_loop round_in round_payload_length
  length_16 h0 n s h = ground arith

  pub key_read :
      (f : WebSocketFrame) (a b c d : ℕ) (s : S)
      → f.masked ≡ true
      → parse_loop handle 4
          (record {
            parse_state = read_masking_key;
            current_frame = f;
            bytes_read = 0;
            buffer = [];
          })
          s
          (a ∷ b ∷ c ∷ d ∷ [])
        ≡ some (in_payload (record f { masking_key = a ∷ b ∷ c ∷ d ∷ [] }) 0 [], s)
  unfolding parse_loop round_in round_masking_key
  key_read f a b c d s m = ground arith

  behind_key :
      (h0 n : ℕ) (a b c d : ℕ) (payload piece : Bytes) (pieces : List Bytes) (s : S)
      → n < 65536
      → n ≡ length payload
      → AreBytes (a ∷ b ∷ c ∷ d ∷ [])
      → AreBytes payload
      → All (λ c. 0 < length c) (piece ∷ pieces)
      → concat (piece ∷ pieces) ≡ unmask (a ∷ b ∷ c ∷ d ∷ []) 0 payload
      → feed handle
          (record {
            parse_state = read_masking_key;
            current_frame = client_frame h0 n;
            bytes_read = 0;
            buffer = [];
          })
          s
          ((a ∷ b ∷ c ∷ d ∷ []) ∷ piece ∷ pieces)
        ≡ some (initial, handle (record { opcode = bit_and h0 0x0f; payload = payload }) s)
  behind_key h0 n a b c d payload piece pieces s h len hk hp pos e =
      feed_step handle _ _ s s _ (piece ∷ pieces) (key_read (client_frame h0 n) a b c d s refl)
      ∙ payload_pieces handle (record f { masking_key = key }) 0 [] piece pieces s (omega arith)
          refl pos (omega (arith, ap length e, length-unmask key 0 payload))
      ∙ rw (e, unmask-unmask key 0 payload hk hp)
    where
      f : WebSocketFrame
      f = client_frame h0 n

      key : Bytes
      key = a ∷ b ∷ c ∷ d ∷ []

  -- A masked frame of 1 to 65535 bytes, of any first byte, whose header, length and key come in
  -- reads of their own and whose payload comes in any pieces: the message is handed over once, with
  -- the opcode of the frame and the payload without its mask, and the parser is ready for the next
  -- frame.
  pub aligned_frame_arrives :
      (h0 a b c d : ℕ) (payload piece : Bytes) (pieces : List Bytes) (s : S)
      → length payload < 65536
      → AreBytes (a ∷ b ∷ c ∷ d ∷ [])
      → AreBytes payload
      → All (λ c. 0 < length c) (piece ∷ pieces)
      → concat (piece ∷ pieces) ≡ unmask (a ∷ b ∷ c ∷ d ∷ []) 0 payload
      → feed handle initial s
          (client_reads h0 (a ∷ b ∷ c ∷ d ∷ []) (length payload) (piece ∷ pieces))
        ≡ some (initial, handle (record { opcode = bit_and h0 0x0f; payload = payload }) s)
  aligned_frame_arrives h0 a b c d payload piece pieces s h hk hp pos e =
      elim (Bool-cases (ltb (length payload) 126)) [
        | inl short ↦ rw short (
            feed_step handle _ _ s s _ _ (header_short h0 (length payload) s (ground arith))
            ∙ behind_key h0 (length payload) a b c d payload piece pieces s h refl hk hp pos e)
        | inr long ↦ rw long (
            feed_step handle _ _ s s _ _ (header_long h0 s)
            ∙ feed_step handle _ _ s s _ _ (length_16 h0 (length payload) s h)
            ∙ behind_key h0 (length payload) a b c d payload piece pieces s h refl hk hp pos e)
      ]
