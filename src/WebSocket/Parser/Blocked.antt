-- ===== src/WebSocket/Parser/Blocked.antt =====
-- src/uv_net/websocket_connection.cpp: reads that leave `ParseFrame` where the next byte makes it
-- run for ever.
use libuv_server.Prelude.{
  ℕ, ◌+◌, ◌%◌, ◌/◌, ◌^◌, ◌≤◌, ◌<◌, ◌≡◌, refl, true, none, some, [], ◌∷◌, arith, length, drop, ap,
  ◌*◌, ◌∙◌, ltb, ltb→lt, ◌==◌, ==_iff, Bool-cases, inl, inr, Bytes, write_be64,
}
use libuv_server.WebSocket.Parser.{
  Parser, Message, initial, round_in, read_masking_key, read_payload_length, round_header,
  round_payload_length, parse_header,
}
use libuv_server.WebSocket.Parser.Loop.{parse_loop, blocked_in, is_blocked, parse_loop-blocked}
use libuv_server.WebSocket.Parser.Aligned.{second_byte, client_frame}
use libuv_server.WebSocket.Parser.Payload.{feed, feed_step}

module _ {S : Type 0} (handle : Message → S → S) where
  -- The state behind the header of a masked frame, with more bytes than the key already there.
  abbrev overfull : ℕ → ℕ → Bytes → Parser
  overfull h0 n more = record {
    parse_state = read_masking_key;
    current_frame = client_frame h0 n;
    bytes_read = length more;
    buffer = more;
  }

  overfull-is_blocked :
      (h0 n : ℕ) (more : Bytes) → 4 ≤ length more → is_blocked (overfull h0 n more) ≡ true
  unfolding blocked_in
  overfull-is_blocked h0 n more le = ground arith

  header_and_more :
      (h0 len : ℕ) (more : Bytes) (s : S)
      → len < 126
      → parse_loop handle 4 initial s (h0 ∷ (128 + len) ∷ more) ≡ some (overfull h0 len more, s)
  unfolding parse_loop round_in round_header parse_header
  header_and_more h0 len more s h = ground (arith, second_byte len h)

  -- The state behind the header of a masked frame with a longer form of the length, with the length
  -- or a part of it already there.
  abbrev long_overfull : ℕ → Bytes → Parser
  long_overfull h0 more = record {
    parse_state = read_payload_length;
    current_frame = client_frame h0 0;
    bytes_read = length more;
    buffer = more;
  }

  long_overfull-is_blocked :
      (h0 : ℕ) (more : Bytes) → 4 ≤ length more → is_blocked (long_overfull h0 more) ≡ true
  unfolding blocked_in
  long_overfull-is_blocked h0 more le = ground arith

  long_header_and_more :
      (h0 : ℕ) (more : Bytes) (s : S)
      → (parse_loop handle 4 initial s (h0 ∷ 254 ∷ more) ≡ some (long_overfull h0 more, s))
        × (parse_loop handle 4 initial s (h0 ∷ 255 ∷ more) ≡ some (long_overfull h0 more, s))
  unfolding parse_loop round_in round_header parse_header
  long_header_and_more h0 more s = (ground arith, ground arith)

  -- What a read does that leaves the parser where it never returns again.
  abbrev Blocks : Bytes → S → Type 0
  Blocks bytes s =
      (p : Parser) × (parse_loop handle 4 initial s bytes ≡ some (p, s))
      × ((fuel b : ℕ) (rest : Bytes) → parse_loop handle fuel p s (b ∷ rest) ≡ none)

  blocked-Blocks :
      (bytes : Bytes) (s : S) (p : Parser)
      → is_blocked p ≡ true
      → parse_loop handle 4 initial s bytes ≡ some (p, s)
      → Blocks bytes s
  blocked-Blocks bytes s p blocked ran =
      (p, ran, λ fuel b rest. parse_loop-blocked handle fuel p s b rest blocked)

  -- A read that begins a masked frame, with any form of the length, and has four bytes or more behind
  -- the two of the header, as where a client sends the frame at once: nothing is handed over, and
  -- whatever the peer sends next, the call of `ParseFrame` for it never returns.
  pub whole_frame_blocks :
      (h0 len : ℕ) (more : Bytes) (s : S)
      → len < 128
      → 4 ≤ length more
      → (p : Parser) × (parse_loop handle 4 initial s (h0 ∷ (128 + len) ∷ more) ≡ some (p, s))
        × ((fuel b : ℕ) (rest : Bytes) → parse_loop handle fuel p s (b ∷ rest) ≡ none)
  whole_frame_blocks h0 len more s h le = elim (Bool-cases (ltb len 126)) [
    | inl short ↦
        blocked-Blocks _ s (overfull h0 len more) (overfull-is_blocked h0 len more le)
          (header_and_more h0 len more s (ltb→lt len 126 short))
    | inr long ↦ elim (Bool-cases (len == 126)) [
      | inl e ↦ rw ((==_iff len 126).0 e) (
          blocked-Blocks _ s (long_overfull h0 more) (long_overfull-is_blocked h0 more le)
            (long_header_and_more h0 more s).0)
      | inr ne ↦
          let e : len ≡ 127 = ground (arith, long, ne, h) in
          rw e (
            blocked-Blocks _ s (long_overfull h0 more) (long_overfull-is_blocked h0 more le)
              (long_header_and_more h0 more s).1)
    ]
  ]

  header_64 :
      (h0 : ℕ) (s : S)
      → parse_loop handle 4 initial s (h0 ∷ 255 ∷ [])
        ≡ some (
          record {
            parse_state = read_payload_length;
            current_frame = client_frame h0 0;
            bytes_read = 0;
            buffer = [];
          },
          s,
        )
  unfolding parse_loop round_in round_header parse_header
  header_64 h0 s = refl

  length_64 :
      (h0 a b : ℕ) (more : Bytes) (s : S)
      → parse_loop handle 4
          (record {
            parse_state = read_payload_length;
            current_frame = client_frame h0 0;
            bytes_read = 0;
            buffer = [];
          })
          s
          (a ∷ b ∷ more)
        ≡ some (overfull h0 (a * 256 + b) more, s)
  unfolding parse_loop round_in round_payload_length
  length_64 h0 a b more s = ground arith

  -- A 64-bit length is read as one of 16 bits: of a masked frame with the header and the eight
  -- bytes of its length in reads of their own, the parser takes the length from the first two, so
  -- as 0 for every payload of fewer than 2 ^ 48 bytes, and the call for the next byte never
  -- returns.
  pub long_length_blocks :
      (h0 n : ℕ) (s : S)
      → n < 2 ^ 48
      → (p : Parser) × (feed handle initial s ((h0 ∷ 255 ∷ []) ∷ write_be64 n ∷ []) ≡ some (p, s))
        × (p.current_frame.payload_length ≡ 0)
        × ((fuel b : ℕ) (rest : Bytes) → parse_loop handle fuel p s (b ∷ rest) ≡ none)
  long_length_blocks h0 n s h = (
    overfull h0 0 (drop 2 (write_be64 n)),
    feed_step handle _ _ s s _ _ (header_64 h0 s)
        ∙ feed_step handle _ _ s s _ [] (length_64 h0 _ _ (drop 2 (write_be64 n)) s)
        ∙ unfold feed in ap (λ k. some (overfull h0 k (drop 2 (write_be64 n)), s)) (high_zero),
    refl,
    λ fuel b rest.
        parse_loop-blocked handle fuel (overfull h0 0 (drop 2 (write_be64 n))) s b rest
          (overfull-is_blocked h0 0 (drop 2 (write_be64 n)) (omega arith)),
  )
    where
      high_zero : n / 4294967296 / 16777216 % 256 * 256 + n / 4294967296 / 65536 % 256 ≡ 0
      high_zero = omega arith
