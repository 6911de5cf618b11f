-- ===== src/WebSocket/Frame/RoundTrip.antt =====
-- src/uv_net/websocket_connection.cpp: the frames of `SendFrame` as a client reads them (RFC 6455).
use libuv_server.Prelude.{
  ℕ, ◌+◌, ◌%◌, ◌^◌, ◌<◌, ◌≡◌, refl, ◌∙◌, bit_and, bit_or, Bool, true, Option, none, some, ◌∷◌, ◌++◌,
  arith, ltb, leb, ◌==◌, ==_iff, if◌then◌else◌, length, length-append, take, drop, take-append_self,
  drop-append_self, Bytes, read_be16, read_be64, write_be16, write_be64, all_below, all_below_sound,
  Bool-cases, inl, inr,
}
use libuv_server.WebSocket.Frame.{length_bytes, make_frame}

-- What a client reads off the front of a stream: whether the frame is the last of its message, its
-- opcode and payload, and the bytes that follow.
pub record Received : Type 0 where
  pub fin : Bool
  pub opcode : ℕ
  pub payload : Bytes
  pub rest : Bytes

-- The payload of `len` bytes, if they are there.
cut_payload : ℕ → ℕ → Bytes → Option Received
cut_payload first len b =
    if leb len (length b)
    then some (record {
      fin = leb 128 first;
      opcode = first % 16;
      payload = take len b;
      rest = drop len b;
    })
    else none

-- A server's frame has no mask, and its length stands in 7, 16 or 64 bits.
pub read_frame : Bytes → Option Received
read_frame (first ∷ second ∷ b) =
    if ltb second 126
    then cut_payload first second b
    else if second == 126
    then (if ltb (length b) 2 then none else cut_payload first (read_be16 b) (drop 2 b))
    else if second == 127
    then (if ltb (length b) 8 then none else cut_payload first (read_be64 b) (drop 8 b))
    else none
read_frame _ = none

first_table : all_below 256 (λ x. bit_or 128 (bit_and x 0x0f) == 128 + x % 16) ≡ true
unfolding all_below
first_table = refl

first_byte : (x : ℕ) → x < 256 → bit_or 128 (bit_and x 0x0f) ≡ 128 + x % 16
first_byte x h = (==_iff _ _).0 (all_below_sound 256 _ x first_table h)

short_table : all_below 256 (λ x. bit_or 0 x == x) ≡ true
unfolding all_below
short_table = refl

bit_or-zero : (x : ℕ) → x < 256 → bit_or 0 x ≡ x
bit_or-zero x h = (==_iff _ _).0 (all_below_sound 256 _ x short_table h)

-- The payload is cut off where the length says.
cut_back :
    (x len : ℕ) (bytes rest : Bytes)
    → len ≡ length bytes
    → cut_payload (128 + x % 16) len (bytes ++ rest)
      ≡ some (record { fin = true; opcode = x % 16; payload = bytes; rest = rest })
unfolding cut_payload
cut_back x len bytes rest e = rw e (
    ground
      (arith, length-append bytes rest, take-append_self bytes rest, drop-append_self bytes rest))

read_short : (f n : ℕ) (b : Bytes) → n < 126 → read_frame (f ∷ n ∷ b) ≡ cut_payload f n b
unfolding read_frame
read_short f n b h = ground arith

read_16 :
    (f n : ℕ) (b : Bytes)
    → n < 65536
    → read_frame (f ∷ 126 ∷ (write_be16 (n % 2 ^ 16) ++ b)) ≡ cut_payload f n b
unfolding read_frame
read_16 f n b h =
    let back : read_be16 (write_be16 (n % 2 ^ 16) ++ b) ≡ n = omega arith in ground arith

read_64 :
    (f n : ℕ) (b : Bytes)
    → n < 2 ^ 64
    → read_frame (f ∷ 127 ∷ (write_be64 n ++ b)) ≡ cut_payload f n b
unfolding read_frame
read_64 f n b h = let back : read_be64 (write_be64 n ++ b) ≡ n = omega arith in ground arith

read_body :
    (x : ℕ) (bytes rest : Bytes)
    → length bytes < 2 ^ 64
    → read_frame ((128 + x % 16) ∷ ((length_bytes (length bytes) ++ bytes) ++ rest))
      ≡ cut_payload (128 + x % 16) (length bytes) (bytes ++ rest)
unfolding length_bytes
read_body x bytes rest h = elim (Bool-cases (ltb (length bytes) 126)) [
  | inl short ↦
      let same : length bytes % 2 ^ 8 ≡ length bytes = ground arith in
      rw (short, length_bytes)
        (rw (same, bit_or-zero (length bytes) (ground arith))
          (read_short (128 + x % 16) (length bytes) (bytes ++ rest) (ground arith)))
  | inr long ↦ elim (Bool-cases (ltb (length bytes) 65536)) [
    | inl middle ↦
        rw (long, length_bytes)
          (rw (middle, length_bytes)
            (read_16 (128 + x % 16) (length bytes) (bytes ++ rest) (ground arith)))
    | inr large ↦
        rw (long, length_bytes)
          (rw (large, length_bytes) (read_64 (128 + x % 16) (length bytes) (bytes ++ rest) h))
  ]
]

-- A client reads a frame that the server wrote as the last of its message, with the opcode's low
-- four bits and the payload that was given, and goes on behind it, for payloads of every length
-- that a `size_t` counts.
pub read_frame-make_frame :
    (bytes rest : Bytes) (opcode : ℕ)
    → opcode < 256
    → length bytes < 2 ^ 64
    → read_frame (make_frame bytes opcode ++ rest)
      ≡ some (record { fin = true; opcode = opcode % 16; payload = bytes; rest = rest })
unfolding make_frame
read_frame-make_frame bytes rest opcode ho h =
    rw (first_byte opcode ho)
      (read_body opcode bytes rest h ∙ cut_back opcode (length bytes) bytes rest refl)
