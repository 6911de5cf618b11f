-- ===== src/WebSocket/Parser/Payload.antt =====
-- src/uv_net/websocket_connection.cpp: calls of `ParseFrame` one after the other, and the payload of a
-- frame in pieces.
use libuv_server.Prelude.{
  ℕ, ◌+◌, ◌-◌, ◌%◌, ◌^◌, ◌≤◌, ◌<◌, ◌≡◌, refl, ap, ◌∙◌, min, true, Option, none, some, List, [], ◌∷◌,
  ◌++◌, append_assoc, append-nil, arith, length, length-append, take_all, drop_all, concat, All,
  Bytes,
}
use libuv_server.WebSocket.Parser.{
  Parser, Message, WebSocketFrame, Round, quiet, read_payload, initial, round_in, round_payload,
  unmask,
}
use libuv_server.WebSocket.Parser.Loop.{parse_loop, dispatch}

-- One call of `ParseFrame` after the other, on the reads in order.
unfoldable pub feed :
    {S : Type 0} → (Message → S → S) → Parser → S → List Bytes → Option (Parser × S)
feed handle p s [] = some (p, s)
feed handle p s (c ∷ cs) = elim (parse_loop handle 4 p s c) [
  | none ↦ none
  | some (p', s') ↦ feed handle p' s' cs
]

-- The state behind the key of a masked frame, with a part of the payload in the buffer. What is
-- left in `bytes_read` plays no role there.
abbrev pub in_payload : WebSocketFrame → ℕ → Bytes → Parser
in_payload f n b = record {
  parse_state = read_payload;
  current_frame = f;
  bytes_read = n;
  buffer = b;
}

-- All bytes are taken: the frame needs more, or exactly these.
module _ (p : Parser) (rest : Bytes) (h : p.current_frame.payload_length < 2 ^ 64) where
  takes_all :
      length p.buffer + length rest ≤ p.current_frame.payload_length
      → min ((p.current_frame.payload_length + 2 ^ 64 - length p.buffer) % 2 ^ 64) (length rest)
        ≡ length rest
  takes_all le = omega arith

  round_payload_part :
      length p.buffer + length rest < p.current_frame.payload_length
      → round_payload p rest ≡ quiet (record p { buffer = p.buffer ++ rest }) []
  unfolding round_payload
  round_payload_part lt =
      rw
        (
          takes_all (omega arith),
          take_all (length rest) rest (omega arith),
          drop_all (length rest) rest (omega arith),
        )
        (ground (arith, length-append p.buffer rest))

  round_payload_end :
      length p.buffer + length rest ≡ p.current_frame.payload_length
      → p.current_frame.masked ≡ true
      → round_payload p rest ≡ record {
        parser = initial;
        rest = [];
        frame = some (record {
          opcode = p.current_frame.opcode;
          payload = unmask p.current_frame.masking_key 0 (p.buffer ++ rest);
        });
      }
  unfolding round_payload
  round_payload_end e m =
      rw
        (
          takes_all (omega arith),
          take_all (length rest) rest (omega arith),
          drop_all (length rest) rest (omega arith),
        )
        (ground (arith, length-append p.buffer rest))

module _ {S : Type 0} (handle : Message → S → S) where
  abbrev pub after_round : S → Round → Option (Parser × S)
  after_round s r = parse_loop handle 3 r.parser (dispatch handle r.frame s) r.rest

  -- A read of a part of the payload that is still missing.
  payload_part :
      (f : WebSocketFrame) (n : ℕ) (b c : Bytes) (s : S)
      → f.payload_length < 2 ^ 64
      → 0 < length c
      → length b + length c < f.payload_length
      → parse_loop handle 4 (in_payload f n b) s c ≡ some (in_payload f n (b ++ c), s)
  unfolding parse_loop round_in
  payload_part f n b [] s h pos lt = absurd (omega arith)
  payload_part f n b (x ∷ c) s h pos lt =
      ap (after_round s) (round_payload_part (in_payload f n b) (x ∷ c) h lt)

  -- The read that ends the payload.
  payload_end :
      (f : WebSocketFrame) (n : ℕ) (b c : Bytes) (s : S)
      → f.payload_length < 2 ^ 64
      → f.masked ≡ true
      → 0 < length c
      → length b + length c ≡ f.payload_length
      → parse_loop handle 4 (in_payload f n b) s c
        ≡ some (
          initial,
          handle (record { opcode = f.opcode; payload = unmask f.masking_key 0 (b ++ c) }) s,
        )
  unfolding parse_loop round_in
  payload_end f n b [] s h m pos e = absurd (omega arith)
  payload_end f n b (x ∷ c) s h m pos e =
      ap (after_round s) (round_payload_end (in_payload f n b) (x ∷ c) h e m)

  pub feed_step :
      (p p' : Parser) (s s' : S) (c : Bytes) (cs : List Bytes)
      → parse_loop handle 4 p s c ≡ some (p', s')
      → feed handle p s (c ∷ cs) ≡ feed handle p' s' cs
  unfolding feed
  feed_step p p' s s' c cs e = rw (e, feed)

  -- The payload in any pieces that are not empty.
  pub payload_pieces :
      (f : WebSocketFrame) (n : ℕ) (b c : Bytes) (cs : List Bytes) (s : S)
      → f.payload_length < 2 ^ 64
      → f.masked ≡ true
      → All (λ c. 0 < length c) (c ∷ cs)
      → length b + length (concat (c ∷ cs)) ≡ f.payload_length
      → feed handle (in_payload f n b) s (c ∷ cs)
        ≡ some (
          initial,
          handle
              (record {
                opcode = f.opcode;
                payload = unmask f.masking_key 0 (b ++ concat (c ∷ cs));
              })
              s,
        )
  payload_pieces f n b c [] s h m pos e = rw (append-nil c) (
      feed_step _ _ s _ c [] (payload_end f n b c s h m pos.0 (rw (append-nil c) at e))
      ∙ unfold feed in refl)
  payload_pieces f n b c (c' ∷ cs) s h m pos e =
      feed_step _ _ s s c (c' ∷ cs) (
        payload_part f n b c s h pos.0
          (omega (arith, length-append c (c' ++ concat cs), length-append c' (concat cs), pos.1.0)))
      ∙ payload_pieces f n (b ++ c) c' cs s h m pos.1
          (omega (arith, length-append b c, length-append c (c' ++ concat cs)))
      ∙ rw (append_assoc b c (c' ++ concat cs))
