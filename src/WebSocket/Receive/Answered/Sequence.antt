-- ===== src/WebSocket/Receive/Answered/Sequence.antt =====
-- src/uv_net/websocket_connection.cpp: what a connection does with any sequence of frames.
use mathlib.Core.Path.{subst}
use libuv_server.Prelude.{
  ◌≡◌, refl, sym, ◌∙◌, ap, Bool, true, false, ◌||◌, ◌==◌, none, some, List, [], ◌∷◌, ◌++◌,
  append-nil, map, pos, All, Bytes, Bool-cases, inl, inr, if◌then◌else◌,
}
use libuv_server.Connection.{Peer, CallbackMessage}
use libuv_server.Uv.{Uv, Calls, delivered}
use libuv_server.Tcp.State.{TcpServer}
use libuv_server.WebSocket.Parser.{Message, initial}
use libuv_server.WebSocket.Connection.{WebSocketConnection, State, in_open, in_closing, close}
use libuv_server.WebSocket.Receive.{process_frame}
use libuv_server.WebSocket.Receive.Client.{
  ClientFrame, IsMasked, all_reads, framed, frame_parsed-more,
}
use libuv_server.WebSocket.Receive.Frames.{parse_frames}
use libuv_server.WebSocket.Receive.Separate.{with_parser}
use libuv_server.WebSocket.Receive.Answered.{
  IsAfter, handed_over, answers_to, has_close, trans_IsAfter, answers_to-cons, handed_over-cons,
  handed_over-close, open-IsAfter, closing-IsAfter,
}

module _ (uv : Uv) (works : (calls : Calls) (bytes : Bytes) → uv.write_result calls bytes ≡ pos 0)
    (server : TcpServer) (callback : CallbackMessage) (set : server.on_message ≡ some callback)
    (asks_nothing : (p : Peer) (bytes : Bytes) → callback p bytes ≡ [])
    (no_protocol : server.server_protocol ≡ none) where
  open-closes :
      (m : Message) (c : WebSocketConnection)
      → c.state ≡ in_open
      → (m.opcode == 8) ≡ true
      → IsAfter c [] (answers_to (m ∷ [])) in_closing (process_frame uv server m c)
  open-closes m c o e =
      let v = open-IsAfter uv works server callback set asks_nothing no_protocol m c o in
      record {
        handed = v.handed ∙ ap (λ g. delivered c.tcp.calls ++ g) (handed_over-close m [] e);
        answered = v.answered;
        in_state = v.in_state ∙ ap (λ b. if b then in_closing else in_open) e;
      }

  open-stays :
      (m : Message) (c : WebSocketConnection)
      → c.state ≡ in_open
      → (m.opcode == 8) ≡ false
      → IsAfter c (handed_over (m ∷ [])) (answers_to (m ∷ [])) in_open (process_frame uv server m c)
  open-stays m c o e =
      let v = open-IsAfter uv works server callback set asks_nothing no_protocol m c o in
      record {
        handed = v.handed;
        answered = v.answered;
        in_state = v.in_state ∙ ap (λ b. if b then in_closing else in_open) e;
      }

  -- The reads of some frames, and what the connection is after them.
  abbrev Reads : WebSocketConnection → List ClientFrame → List Bytes → List Bytes → State → Type 0
  Reads c fs given answers state =
      (d : WebSocketConnection) × (parse_frames uv server c (all_reads fs) ≡ some d)
      × (IsAfter c given answers state d)
      × (d.parser ≡ initial)

  same_Reads :
      (c : WebSocketConnection) (fs : List ClientFrame) {g given a answers : List Bytes}
      {s state : State}
      → g ≡ given
      → a ≡ answers
      → s ≡ state
      → Reads c fs g a s
      → Reads c fs given answers state
  same_Reads c fs {given = given} {a} {answers} {s} eg ea es r =
      subst (Reads c fs given answers) es
        (subst (λ b. Reads c fs given b s) ea (subst (λ b. Reads c fs b a s) eg r))

  -- One more frame in front.
  read_on :
      (f : ClientFrame) (fs : List ClientFrame) (c : WebSocketConnection)
      (g given a answers : List Bytes) {s state : State}
      → IsMasked f
      → c.parser ≡ initial
      → IsAfter c g a s (process_frame uv server (framed f) c)
      → Reads (with_parser initial (process_frame uv server (framed f) c)) fs given answers state
      → Reads c (f ∷ fs) (g ++ given) (a ++ answers) state
  read_on f fs c g given a answers h at one (d, ran, v, end) = (
    d,
    frame_parsed-more uv server c f (all_reads fs) h at ∙ ran,
    trans_IsAfter {c = c} g given a answers
        (record { handed = one.handed; answered = one.answered; in_state = one.in_state }) v,
    end,
  )

  after_closing :
      (fs : List ClientFrame) (c : WebSocketConnection)
      → All IsMasked fs
      → c.parser ≡ initial
      → c.state ≡ in_closing
      → Reads c fs [] (answers_to (map framed fs)) in_closing
  unfolding parse_frames
  after_closing [] c h at s = (
    c,
    refl,
    record { handed = sym (append-nil _); answered = sym (append-nil _); in_state = s },
    at,
  )
  after_closing (f ∷ fs) c (h, hs) at s =
      let one =
        closing-IsAfter uv works server callback set asks_nothing no_protocol (framed f) c s in
      same_Reads c (f ∷ fs) refl (answers_to-cons (framed f) (map framed fs)) refl (
        read_on f fs c [] [] (answers_to (framed f ∷ [])) (answers_to (map framed fs)) h at one (
          after_closing fs (with_parser initial (process_frame uv server (framed f) c)) hs refl
            one.in_state))

  -- Where `uv_write` does not fail, no package parser is set and the message callback asks for
  -- nothing: an open connection that reads any sequence of masked frames of 1 to 65535 bytes, whose
  -- headers, lengths and keys come in reads of their own, whatever their opcodes, returns from
  -- every read and is ready for the next frame; the callback was given the payloads of the texts
  -- and binaries up to the first close, unmasked and in order, and the connection queued for each
  -- close a close and for each ping a pong with the same payload, in order and nothing else; it is
  -- closing if there was a close, and open if not.
  pub frames_answered :
      (fs : List ClientFrame) (c : WebSocketConnection)
      → All IsMasked fs
      → c.parser ≡ initial
      → c.state ≡ in_open
      → (d : WebSocketConnection) × (parse_frames uv server c (all_reads fs) ≡ some d)
        × (IsAfter c
            (handed_over (map framed fs))
            (answers_to (map framed fs))
            (if has_close (map framed fs) then in_closing else in_open)
            d)
        × (d.parser ≡ initial)
  unfolding parse_frames
  frames_answered [] c h at s = (
    c,
    refl,
    record { handed = sym (append-nil _); answered = sym (append-nil _); in_state = s },
    at,
  )
  frames_answered (f ∷ fs) c (h, hs) at s = elim (Bool-cases ((framed f).opcode == 8)) [
    | inl close ↦
        let one = open-closes (framed f) c s close in
        same_Reads c (f ∷ fs) (sym (handed_over-close (framed f) (map framed fs) close))
          (answers_to-cons (framed f) (map framed fs)) (at_state true (sym close))
          (read_on f fs c [] [] (answers_to (framed f ∷ [])) (answers_to (map framed fs)) h at one (
            after_closing fs (with_parser initial (process_frame uv server (framed f) c)) hs refl
              one.in_state))
    | inr other ↦
        let one = open-stays (framed f) c s other in
        same_Reads c (f ∷ fs) (handed_over-cons (framed f) (map framed fs) other)
          (answers_to-cons (framed f) (map framed fs)) (at_state false (sym other))
          (read_on f fs c (handed_over (framed f ∷ [])) (handed_over (map framed fs))
            (answers_to (framed f ∷ [])) (answers_to (map framed fs)) h at one
            (frames_answered fs (with_parser initial (process_frame uv server (framed f) c)) hs refl
              one.in_state))
  ]
    where
      at_state :
          (b : Bool)
          → b ≡ ((framed f).opcode == 8)
          → (if b || has_close (map framed fs) then in_closing else in_open)
            ≡ (if has_close (map framed (f ∷ fs)) then in_closing else in_open)
      at_state b e = ap (λ b. if b || has_close (map framed fs) then in_closing else in_open) e
