-- ===== src/WebSocket/Parser.antt =====
-- src/uv_net/websocket_connection.cpp and include/uv_net/websocket_connection.h: the state of
-- `ParseFrame` and one round of its loop, up to the frame that a round completes. Handing the frame
-- over, in WebSocket/Receive, touches none of these fields.
pub mod Loop
pub mod Mask
pub mod Payload
pub mod Aligned
pub mod Blocked
use Prim.Native.Nat.{bit_xor}
use libuv_server.Prelude.{
  ℕ, zero, suc, ◌+◌, ◌-◌, ◌%◌, ◌^◌, min, bit_and, Bool, true, false, not, Option, none, some, List,
  [], ◌∷◌, ◌++◌, ltb, leb, ◌==◌, if◌then◌else◌, length, take, drop, get_or, Bytes, read_be16,
  read_be64,
}

pub data ParseState : Type 0 where
  read_header read_payload_length read_masking_key read_payload : ParseState

-- `payload` is set by nothing but the `memset`.
pub record WebSocketFrame : Type 0 where
  pub fin : Bool
  pub opcode : ℕ
  pub masked : Bool
  pub payload_length : ℕ
  pub masking_key : Bytes

-- What `memset` with 0 leaves.
abbrev pub zero_frame : WebSocketFrame
zero_frame = record {
  fin = false;
  opcode = 0;
  masked = false;
  payload_length = 0;
  masking_key = 0 ∷ 0 ∷ 0 ∷ 0 ∷ [];
}

pub record Parser : Type 0 where
  pub parse_state : ParseState
  pub current_frame : WebSocketFrame
  pub bytes_read : ℕ
  pub buffer : Bytes

abbrev pub initial : Parser
initial = record {
  parse_state = read_header;
  current_frame = zero_frame;
  bytes_read = 0;
  buffer = [];
}

-- A completed frame: its opcode and its payload without the mask.
pub record Message : Type 0 where
  pub opcode : ℕ
  pub payload : Bytes

-- One round: the state, the bytes from `ptr` to `end`, and the frame that was completed.
pub record Round : Type 0 where
  pub parser : Parser
  pub rest : Bytes
  pub frame : Option Message

abbrev pub quiet : Parser → Bytes → Round
quiet p rest = record { parser = p; rest = rest; frame = none }

-- `buffer_.insert(buffer_.end(), ptr, end); bytes_read_ += (end - ptr); ptr = end;`
abbrev pub absorb : Parser → Bytes → Parser
absorb p rest = record p { buffer = p.buffer ++ rest; bytes_read = p.bytes_read + length rest }

-- `buffer_.erase(buffer_.begin(), buffer_.begin() + n); bytes_read_ -= n;`
abbrev pub erase_front : Parser → ℕ → Parser
erase_front p n = record p { buffer = drop n p.buffer; bytes_read = p.bytes_read - n }

-- The two bytes of a header, at the front of the buffer.
unfoldable pub parse_header : Parser → Parser
parse_header p = record p {
  current_frame = record f {
    fin = not (bit_and first_byte 0x80 == 0);
    opcode = bit_and first_byte 0x0f;
    masked = not (bit_and second_byte 0x80 == 0);
    payload_length = if ltb payload_len 126 then payload_len else 0;
  };
  parse_state = if ltb payload_len 126 then read_masking_key else read_payload_length;
}
  where
    f : WebSocketFrame
    f = p.current_frame

    first_byte : ℕ
    first_byte = get_or p.buffer 0 0

    second_byte : ℕ
    second_byte = get_or p.buffer 1 0

    payload_len : ℕ
    payload_len = bit_and second_byte 0x7f

-- `case ParseState::READ_HEADER`.
unfoldable pub round_header : Parser → Bytes → Round
round_header p rest =
    if ltb p.bytes_read 2
    then (if leb 2 absorbed.bytes_read
        then quiet (erase_front (parse_header absorbed) 2) []
        else quiet absorbed [])
    else quiet p rest
  where
    absorbed : Parser
    absorbed = absorb p rest

-- `case ParseState::READ_PAYLOAD_LENGTH`.
unfoldable pub round_payload_length : Parser → Bytes → Round
round_payload_length p rest =
    if ltb p.bytes_read needed
    then (if leb needed absorbed.bytes_read
        then quiet
            (erase_front
              (record absorbed {
                current_frame = record f {
                  payload_length =
                      if needed == 2 then read_be16 absorbed.buffer else read_be64 absorbed.buffer;
                };
                parse_state = read_masking_key;
              })
              needed)
            []
        else quiet absorbed [])
    else quiet p rest
  where
    f : WebSocketFrame
    f = p.current_frame

    needed : ℕ
    needed = if f.payload_length == 0 then 2 else 8

    absorbed : Parser
    absorbed = absorb p rest

-- `case ParseState::READ_MASKING_KEY`.
unfoldable pub round_masking_key : Parser → Bytes → Round
round_masking_key p rest =
    if p.current_frame.masked
    then (if ltb p.bytes_read 4
        then (if leb 4 absorbed.bytes_read
            then quiet
                (erase_front
                  (record absorbed {
                    current_frame = record f { masking_key = take 4 absorbed.buffer };
                    parse_state = read_payload;
                  })
                  4)
                []
            else quiet absorbed [])
        else quiet p rest)
    else quiet (record p { parse_state = read_payload }) rest
  where
    f : WebSocketFrame
    f = p.current_frame

    absorbed : Parser
    absorbed = absorb p rest

-- `buffer_[i] ^= current_frame_.masking_key[i % 4]` from the index `i` on.
unfoldable pub unmask : Bytes → ℕ → Bytes → Bytes
unmask key i [] = []
unmask key i (b ∷ bs) = bit_xor b (get_or key (i % 4) 0) ∷ unmask key (suc i) bs

-- `case ParseState::READ_PAYLOAD`. The subtraction is that of `size_t`.
unfoldable pub round_payload : Parser → Bytes → Round
round_payload p rest =
    if leb f.payload_length (length filled)
    then record {
      parser = initial;
      rest = drop to_read rest;
      frame = some (record {
        opcode = f.opcode;
        payload = if f.masked then unmask f.masking_key 0 filled else filled;
      });
    }
    else quiet (record p { buffer = filled }) (drop to_read rest)
  where
    f : WebSocketFrame
    f = p.current_frame

    needed : ℕ
    needed = (f.payload_length + 2 ^ 64 - length p.buffer) % 2 ^ 64

    to_read : ℕ
    to_read = min needed (length rest)

    filled : Bytes
    filled = p.buffer ++ take to_read rest

-- One round of the loop of `ParseFrame`.
unfoldable pub round_in : ParseState → Parser → Bytes → Round
round_in read_header p rest = round_header p rest
round_in read_payload_length p rest = round_payload_length p rest
round_in read_masking_key p rest = round_masking_key p rest
round_in read_payload p rest = round_payload p rest

abbrev pub round : Parser → Bytes → Round
round p rest = round_in p.parse_state p rest
