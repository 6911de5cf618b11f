-- ===== src/Base64/RoundTrip.antt =====
-- src/uv_net/websocket_connection.cpp: `Base64Encode` against the decoder of RFC 4648.
use libuv_server.Prelude.{
  ℕ, ◌+◌, ◌-◌, ◌*◌, ◌/◌, ◌%◌, ◌<◌, bit_and, ◌≡◌, refl, ◌∙◌, true, false, ◌&&◌, Option, none, some,
  [], ◌∷◌, ◌++◌, arith, Bool, leb, ltb, ◌==◌, ==_iff, if◌then◌else◌, length, take, get_or, Bytes,
  AreBytes, all_below, all_below_sound,
}
use libuv_server.Base64.{
  base64_chars, char_array_4, look_up, encode_rest, encode_loop, base64_encode,
}

-- The value of a character of the alphabet, and 64 for any other.
unfoldable pub value_of : ℕ → ℕ
value_of c =
    if leb b'A' c && leb c b'Z'
    then c - b'A'
    else if leb b'a' c && leb c b'z'
    then c - b'a' + 26
    else if leb b'0' c && leb c b'9'
    then c - b'0' + 52
    else if c == b'+'
    then 62
    else if c == b'/'
    then 63
    else 64

-- The bytes of a group of four characters.
pub decode_group : ℕ → ℕ → ℕ → ℕ → Bytes
decode_group w x y z = (w * 4 + x / 16) ∷ (x % 16 * 16 + y / 4) ∷ (y % 4 * 64 + z) ∷ []

-- Whether a character is of the alphabet.
abbrev in_alphabet : ℕ → Bool
in_alphabet c = ltb (value_of c) 64

-- The group at the end, with `=` for what is missing of it, and nothing behind it: the bits that are
-- not used are 0.
unfoldable pub decode_last : ℕ → ℕ → ℕ → Bytes → Option Bytes
decode_last w x y (b ∷ bs) = none
decode_last w x y [] =
    if y == b'='
    then (if in_alphabet w && in_alphabet x && value_of x % 16 == 0
        then some (take 1 (decode_group (value_of w) (value_of x) 0 0))
        else none)
    else if in_alphabet w && in_alphabet x && in_alphabet y && value_of y % 4 == 0
    then some (take 2 (decode_group (value_of w) (value_of x) (value_of y) 0))
    else none

-- A full group, and the bytes of what follows it.
unfoldable pub decode_full : ℕ → ℕ → ℕ → ℕ → Option Bytes → Option Bytes
decode_full w x y z none = none
decode_full w x y z (some bytes) =
    if in_alphabet w && in_alphabet x && in_alphabet y && in_alphabet z
    then some (decode_group (value_of w) (value_of x) (value_of y) (value_of z) ++ bytes)
    else none

-- The decoder: `=` stands only for what is missing of the last group, with nothing behind it; every
-- other character is of the alphabet; `none` is a text of another form.
pub decode : Bytes → Option Bytes
decode [] = some []
decode (w ∷ x ∷ y ∷ z ∷ rest) =
    let tail = decode rest in if z == b'=' then decode_last w x y rest else decode_full w x y z tail
decode _ = none

char_table : all_below 64 (λ i. value_of (get_or base64_chars i 0) == i) ≡ true
unfolding all_below value_of
char_table = refl

no_padding_table :
    all_below 64 (λ i. if get_or base64_chars i 0 == b'=' then false else true) ≡ true
unfolding all_below
no_padding_table = refl

value_of-char : (i : ℕ) → i < 64 → value_of (get_or base64_chars i 0) ≡ i
value_of-char i h = (==_iff _ i).0 (all_below_sound 64 _ i char_table h)

char-ne-padding : (i : ℕ) → i < 64 → (get_or base64_chars i 0 == b'=') ≡ false
char-ne-padding i h = ground (arith, all_below_sound 64 _ i no_padding_table h)

mask_table :
    all_below 256 (λ x.
      (bit_and x 0xfc == x / 4 * 4)
      && (bit_and x 0x03 == x % 4)
      && (bit_and x 0xf0 == x / 16 * 16)
      && (bit_and x 0x0f == x % 16)
      && (bit_and x 0xc0 == x / 64 * 64)
      && (bit_and x 0x3f == x % 64))
    ≡ true
unfolding all_below
mask_table = refl

masks :
    (x : ℕ)
    → x < 256
    → (bit_and x 0xfc ≡ x / 4 * 4)
      × (bit_and x 0x03 ≡ x % 4)
      × (bit_and x 0xf0 ≡ x / 16 * 16)
      × (bit_and x 0x0f ≡ x % 16)
      × (bit_and x 0xc0 ≡ x / 64 * 64)
      × (bit_and x 0x3f ≡ x % 64)
masks x h = ground (arith, all_below_sound 256 _ x mask_table h)

-- The four indices as numbers.
indices :
    (a b c : ℕ)
    → a < 256
    → b < 256
    → c < 256
    → char_array_4 a b c ≡ a / 4 ∷ (a % 4 * 16 + b / 16) ∷ (b % 16 * 4 + c / 64) ∷ (c % 64) ∷ []
unfolding char_array_4
indices a b c ha hb hc = ground (arith, masks a ha, masks b hb, masks c hc)

-- One full group comes back, with what follows it.
decode-group :
    (i j k l : ℕ) (text : Bytes) (bytes : Bytes)
    → i < 64
    → j < 64
    → k < 64
    → l < 64
    → decode text ≡ some bytes
    → decode (look_up (i ∷ j ∷ k ∷ l ∷ []) ++ text) ≡ some (decode_group i j k l ++ bytes)
unfolding decode decode_full look_up
decode-group i j k l text bytes hi hj hk hl e = rw (char-ne-padding l hl) (
    rw
      (
        e,
        decode_full,
        value_of-char i hi,
        value_of-char j hj,
        value_of-char k hk,
        value_of-char l hl,
      )
      (ground arith))

-- The group at the end, of one byte or of two.
decode-one :
    (i j : ℕ)
    → i < 64
    → j < 64
    → j % 16 ≡ 0
    → decode (look_up (i ∷ j ∷ []) ++ b'=' ∷ b'=' ∷ []) ≡ some ((i * 4 + j / 16) ∷ [])
unfolding decode decode_last look_up decode_group
decode-one i j hi hj e = rw (value_of-char i hi, value_of-char j hj) (ground (arith, e))

decode-two :
    (i j k : ℕ)
    → i < 64
    → j < 64
    → k < 64
    → k % 4 ≡ 0
    → decode (look_up (i ∷ j ∷ k ∷ []) ++ b'=' ∷ [])
      ≡ some ((i * 4 + j / 16) ∷ (j % 16 * 16 + k / 4) ∷ [])
unfolding decode decode_last look_up decode_group
decode-two i j k hi hj hk e =
    rw (char-ne-padding k hk)
      (rw (value_of-char i hi, value_of-char j hj, value_of-char k hk) (ground (arith, e)))

round_trip : (bytes : Bytes) → AreBytes bytes → decode (encode_loop bytes []) ≡ some bytes
unfolding encode_loop encode_rest
round_trip [] h = unfold decode in refl
round_trip (a ∷ []) h =
    rw (indices a 0 0 h.0 (omega arith) (omega arith))
      (decode-one _ _ (omega arith) (omega arith) (omega arith) ∙ ground arith)
round_trip (a ∷ b ∷ []) h =
    rw (indices a b 0 h.0 h.1.0 (omega arith))
      (decode-two _ _ _ (omega arith) (omega arith) (omega arith) (omega arith) ∙ ground arith)
round_trip (a ∷ b ∷ c ∷ rest) h = rw (indices a b c h.0 h.1.0 h.1.1.0) (
    decode-group _ _ _ _ (encode_loop rest []) rest (omega arith) (omega arith) (omega arith)
      (omega arith) (round_trip rest h.1.1.1)
    ∙ unfold decode_group in ground arith)

-- Decoding what the encoder writes gives the bytes back, for every sequence of bytes, with a decoder
-- that takes only characters of the alphabet, padding only at the end of the text, and no unused bits.
pub decode-base64_encode :
    (bytes : Bytes) → AreBytes bytes → decode (base64_encode bytes) ≡ some bytes
unfolding base64_encode
decode-base64_encode bytes h = round_trip bytes h

length-encode_loop : (bytes : Bytes) → length (encode_loop bytes []) ≡ 4 * ((length bytes + 2) / 3)
unfolding encode_loop encode_rest char_array_4 look_up
length-encode_loop [] = refl
length-encode_loop (a ∷ []) = refl
length-encode_loop (a ∷ b ∷ []) = refl
length-encode_loop (a ∷ b ∷ c ∷ rest) = omega (arith, length-encode_loop rest)

-- The text has four characters for every three bytes begun.
pub length-base64_encode :
    (bytes : Bytes) → length (base64_encode bytes) ≡ 4 * ((length bytes + 2) / 3)
unfolding base64_encode
length-base64_encode bytes = length-encode_loop bytes
