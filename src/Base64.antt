-- ===== src/Base64.antt =====
-- src/uv_net/websocket_connection.cpp and src/uv_net/utils.cpp: `Base64Encode`, which both files
-- hold in the same words.
pub mod RoundTrip
use libuv_server.Prelude.{
  ℕ, zero, suc, ◌+◌, ◌-◌, ◌*◌, ◌/◌, bit_and, List, [], ◌∷◌, ◌++◌, length, take, get_or, Bytes,
  codes,
}

-- `base64_chars`.
abbrev pub base64_chars : Bytes
base64_chars = codes "ABCDEFGHIJKLMNOPQRSTUVWXYZabcdefghijklmnopqrstuvwxyz0123456789+/"

-- The indices into the table that three bytes give, each below 64.
unfoldable pub char_array_4 : ℕ → ℕ → ℕ → List ℕ
char_array_4 a b c =
    bit_and a 0xfc / 4
    ∷ (bit_and a 0x03 * 16 + bit_and b 0xf0 / 16)
    ∷ (bit_and b 0x0f * 4 + bit_and c 0xc0 / 64)
    ∷ bit_and c 0x3f
    ∷ []

unfoldable pub look_up : List ℕ → Bytes
look_up [] = []
look_up (i ∷ is) = get_or base64_chars i 0 ∷ look_up is

abbrev padding : ℕ → Bytes
padding zero = []
padding (suc n) = b'=' ∷ padding n

-- The part behind the loop, for the `i` bytes that are left over.
unfoldable pub encode_rest : Bytes → Bytes
encode_rest [] = []
encode_rest (a ∷ []) = look_up (take 2 (char_array_4 a 0 0)) ++ padding 2
encode_rest (a ∷ b ∷ more) = look_up (take 3 (char_array_4 a b 0)) ++ padding 1

-- The loop; the second argument holds the first `i` bytes of `char_array_3`.
unfoldable pub encode_loop : Bytes → Bytes → Bytes
encode_loop [] group = encode_rest group
encode_loop (x ∷ rest) [] = encode_loop rest (x ∷ [])
encode_loop (x ∷ rest) (a ∷ []) = encode_loop rest (a ∷ x ∷ [])
encode_loop (x ∷ rest) (a ∷ b ∷ more) = look_up (char_array_4 a b x) ++ encode_loop rest []

unfoldable pub base64_encode : Bytes → Bytes
base64_encode bytes = encode_loop bytes []
