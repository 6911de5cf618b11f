-- ===== src/WebSocket/Parser/Loop.antt =====
-- src/uv_net/websocket_connection.cpp: the loop of `ParseFrame`, where it ends and where it does not.
use libuv_server.Prelude.{
  ℕ, zero, suc, ◌+◌, ◌-◌, ◌%◌, ◌^◌, ◌≤◌, ◌<◌, ◌≡◌, ◌≢◌, refl, ◌⊎◌, inl, inr, min, Bool, true, false,
  ◌&&◌, Option, none, some, [], ◌∷◌, ◌++◌, arith, leb, ◌==◌, if◌then◌else◌, length, length-append,
  length-take, take, drop_all, leb-false, Bytes, Bool-cases,
}
use libuv_server.WebSocket.Parser.{
  ParseState, read_header, read_payload_length, read_masking_key, read_payload, Parser, Message,
  Round, quiet, initial, round, round_in, round_header, round_payload_length, round_masking_key,
  round_payload,
}

-- What a round completed goes to `handle`.
abbrev pub dispatch : {S : Type 0} → (Message → S → S) → Option Message → S → S
dispatch handle none s = s
dispatch handle (some m) s = handle m s

-- The loop `while (ptr < end)` over a state `s` that the frames act on; `none` means that the fuel
-- ran out.
unfoldable pub parse_loop :
    {S : Type 0} → (Message → S → S) → ℕ → Parser → S → Bytes → Option (Parser × S)
parse_loop handle zero p s rest = none
parse_loop handle (suc fuel) p s [] = some (p, s)
parse_loop handle (suc fuel) p s (b ∷ rest) =
    parse_loop handle fuel (round p (b ∷ rest)).parser
      (dispatch handle (round p (b ∷ rest)).frame s) (round p (b ∷ rest)).rest

-- The state already holds what it waits for, so a round changes nothing.
unfoldable pub blocked_in : ParseState → Parser → Bool
blocked_in read_header p = leb 2 p.bytes_read
blocked_in read_payload_length p =
    leb (if p.current_frame.payload_length == 0 then 2 else 8) p.bytes_read
blocked_in read_masking_key p = p.current_frame.masked && leb 4 p.bytes_read
blocked_in read_payload p = false

abbrev pub is_blocked : Parser → Bool
is_blocked p = blocked_in p.parse_state p

round_in-blocked :
    (state : ParseState) (p : Parser) (rest : Bytes)
    → blocked_in state p ≡ true
    → round_in state p rest ≡ quiet p rest
unfolding round_in blocked_in round_header round_payload_length round_masking_key
round_in-blocked read_header p rest h = ground arith
round_in-blocked read_payload_length p rest h = ground arith
round_in-blocked read_masking_key p rest h = ground arith
round_in-blocked read_payload p rest h = ground arith

-- In such a state, any further byte keeps the loop running for ever.
pub parse_loop-blocked :
    {S : Type 0} (handle : Message → S → S) (fuel : ℕ) (p : Parser) (s : S) (b : ℕ) (rest : Bytes)
    → is_blocked p ≡ true
    → parse_loop handle fuel p s (b ∷ rest) ≡ none
unfolding parse_loop
parse_loop-blocked handle zero p s b rest h = refl
parse_loop-blocked handle (suc fuel) p s b rest h =
    rw (round_in-blocked p.parse_state p (b ∷ rest) h) (parse_loop-blocked handle fuel p s b rest h)

-- In the states that only collect bytes a round takes all of them.
round_in-collects :
    (state : ParseState) (p : Parser) (rest : Bytes)
    → blocked_in state p ≡ false
    → state ≢ read_payload
    → (state ≡ read_masking_key → p.current_frame.masked ≡ true)
    → ((round_in state p rest).rest ≡ []) × ((round_in state p rest).frame ≡ none)
unfolding round_in blocked_in round_header round_payload_length round_masking_key
round_in-collects read_header p rest h n m = ground arith
round_in-collects read_payload_length p rest h n m = ground arith
round_in-collects read_masking_key p rest h n m = ground (arith, m refl)
round_in-collects read_payload p rest h n m = absurd (n refl)

round_in-unmasked :
    (p : Parser) (rest : Bytes)
    → p.current_frame.masked ≡ false
    → round_in read_masking_key p rest ≡ quiet (record p { parse_state = read_payload }) rest
unfolding round_in round_masking_key
round_in-unmasked p rest u = ground arith

-- A round of the payload completes the frame or takes all bytes.
round_payload-progress :
    (p : Parser) (rest : Bytes)
    → p.current_frame.payload_length < 2 ^ 64
    → ((round_payload p rest).parser ≡ initial) ⊎ ((round_payload p rest).rest ≡ [])
unfolding round_payload
round_payload-progress p rest h =
    elim (Bool-cases (leb pl (length (p.buffer ++ take to_read rest)))) [
      | inl complete ↦ inl (rw complete)
      | inr partial ↦
          let all_read : length rest ≤ to_read =
            let short = leb-false pl (length (p.buffer ++ take to_read rest)) partial in
            omega (arith, length-append p.buffer (take to_read rest), length-take to_read rest) in
          inr (rw partial (drop_all to_read rest all_read))
    ]
  where
    pl : ℕ
    pl = p.current_frame.payload_length

    to_read : ℕ
    to_read = min ((pl + 2 ^ 64 - length p.buffer) % 2 ^ 64) (length rest)

-- No call ends later than these rounds, from any state that is not blocked.
abbrev Ends : {S : Type 0} → Option (Parser × S) → Type 0
Ends none = ⊥
Ends (some r) = Unit {0}

module _ {S : Type 0} (handle : Message → S → S) where
  Ends-nil :
      (fuel : ℕ) (p : Parser) (s : S) (rest : Bytes)
      → rest ≡ []
      → Ends (parse_loop handle (suc fuel) p s rest)
  unfolding parse_loop
  Ends-nil fuel p s [] e = tt
  Ends-nil fuel p s (b ∷ rest) e = cc

  Ends-initial :
      (fuel : ℕ) (p : Parser) (s : S) (rest : Bytes)
      → p ≡ initial
      → Ends (parse_loop handle (suc (suc fuel)) p s rest)
  unfolding parse_loop blocked_in
  Ends-initial fuel p s [] e = tt
  Ends-initial fuel p s (b ∷ rest) e = rw e (
      Ends-nil fuel _ _ _
        (round_in-collects read_header initial (b ∷ rest) refl (λ e. cc) (λ e. cc)).0)

  -- What the loop does with the result of a round.
  abbrev after_round : ℕ → S → Round → Option (Parser × S)
  after_round fuel s r = parse_loop handle fuel r.parser (dispatch handle r.frame s) r.rest

  Ends-payload :
      (fuel : ℕ) (p : Parser) (s : S) (rest : Bytes)
      → p.current_frame.payload_length < 2 ^ 64
      → Ends (after_round (suc (suc fuel)) s (round_payload p rest))
  Ends-payload fuel p s rest h = elim (round_payload-progress p rest h) [
    | inl fresh ↦ Ends-initial fuel _ _ _ fresh
    | inr none_left ↦ Ends-nil (suc fuel) _ _ _ none_left
  ]

  Ends-unmasked :
      (fuel : ℕ) (p : Parser) (s : S) (rest : Bytes)
      → p.current_frame.payload_length < 2 ^ 64
      → Ends (
          parse_loop handle (suc (suc (suc fuel))) (record p { parse_state = read_payload }) s rest)
  unfolding parse_loop round_in
  Ends-unmasked fuel p s [] h = tt
  Ends-unmasked fuel p s (b ∷ rest) h =
      Ends-payload fuel (record p { parse_state = read_payload }) s (b ∷ rest) h

  Ends-round :
      (state : ParseState) (fuel : ℕ) (p : Parser) (s : S) (rest : Bytes)
      → p.current_frame.payload_length < 2 ^ 64
      → blocked_in state p ≡ false
      → Ends (after_round (suc (suc (suc fuel))) s (round_in state p rest))
  Ends-round read_header fuel p s rest h n =
      Ends-nil _ _ _ _ (round_in-collects read_header p rest n (λ e. cc) (λ e. cc)).0
  Ends-round read_payload_length fuel p s rest h n =
      Ends-nil _ _ _ _ (round_in-collects read_payload_length p rest n (λ e. cc) (λ e. cc)).0
  Ends-round read_masking_key fuel p s rest h n = elim (Bool-cases p.current_frame.masked) [
    | inl m ↦ Ends-nil _ _ _ _ (round_in-collects read_masking_key p rest n (λ e. cc) (λ e. m)).0
    | inr u ↦ rw (round_in-unmasked p rest u) (Ends-unmasked fuel p s rest h)
  ]
  Ends-round read_payload fuel p s rest h n = unfold round_in in Ends-payload (suc fuel) p s rest h

  Ends-result : (o : Option (Parser × S)) → Ends o → (r : Parser × S) × (o ≡ some r)
  Ends-result none e = absurd e
  Ends-result (some r) e = (r, refl)

  parse_loop-Ends :
      (fuel : ℕ) (p : Parser) (s : S) (rest : Bytes)
      → p.current_frame.payload_length < 2 ^ 64
      → is_blocked p ≡ false
      → Ends (parse_loop handle (suc (suc (suc (suc fuel)))) p s rest)
  unfolding parse_loop
  parse_loop-Ends fuel p s [] h n = tt
  parse_loop-Ends fuel p s (b ∷ rest) h n = Ends-round p.parse_state fuel p s (b ∷ rest) h n

  -- `ParseFrame` ends exactly from the states that do not already hold what they wait for: from
  -- these the loop makes at most four tests, whatever bytes come and whatever the frames do; from
  -- the others it runs for ever at the first byte, with any fuel.
  pub parse_loop_ends_iff :
      (p : Parser) (s : S) (b : ℕ) (rest : Bytes)
      → p.current_frame.payload_length < 2 ^ 64
      → ((is_blocked p ≡ false) → (r : Parser × S) × (parse_loop handle 4 p s (b ∷ rest) ≡ some r))
        × ((is_blocked p ≡ true) → (fuel : ℕ) → parse_loop handle fuel p s (b ∷ rest) ≡ none)
  parse_loop_ends_iff p s b rest h = (
    λ n. Ends-result _ (parse_loop-Ends 0 p s (b ∷ rest) h n),
    λ n fuel. parse_loop-blocked handle fuel p s b rest n,
  )
