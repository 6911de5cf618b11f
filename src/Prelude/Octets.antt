-- ===== src/Prelude/Octets.antt =====
-- Bytes, texts as their code points, and big-endian words.
use Prim.Native.Nat.{ℕ, zero, suc, ◌+◌, ◌*◌, ◌/◌, ◌%◌, ◌<◌}
use Prim.Native.Char.{code}
use Prim.Native.String.{String}
use mathlib.Core.Path.{◌≡◌}
use mathlib.Core.Bool.{Bool, true, ◌&&◌}
use mathlib.Core.List.{List, [], ◌∷◌, ◌++◌}
use native.Mathlib.Omega.{arith}
use libuv_server.Prelude.Lists.{All}

-- A sequence of `char` or `unsigned char` values, each below 256.
abbrev pub Bytes : Type 0
Bytes = List ℕ

abbrev pub AreBytes : Bytes → Type 0
AreBytes = All (λ b. b < 256)

-- The code points of a text, all of them ASCII in this library.
abbrev pub codes : String → Bytes
codes String.[] = []
codes (String.◌∷◌ c s) = code c ∷ codes s

-- Whether a test holds of every number under a bound, the greatest first.
unfoldable pub all_below : ℕ → (ℕ → Bool) → Bool
all_below zero test = true
all_below (suc bound) test = test bound && all_below bound test

pub all_below_sound :
    (bound : ℕ) (test : ℕ → Bool) (i : ℕ) → all_below bound test ≡ true → i < bound → test i ≡ true
unfolding all_below
all_below_sound zero test i holds lt = absurd (omega arith)
all_below_sound (suc bound) test i holds lt = ground (arith, all_below_sound bound test i)

-- Two, four and eight bytes at the front of a buffer, copied into a word and brought from network
-- to host order. A shorter buffer gives 0; the code reads none.
abbrev pub read_be16 : Bytes → ℕ
read_be16 (a ∷ b ∷ rest) = a * 256 + b
read_be16 _ = 0

abbrev pub read_be32 : Bytes → ℕ
read_be32 (a ∷ b ∷ c ∷ d ∷ rest) = ((a * 256 + b) * 256 + c) * 256 + d
read_be32 _ = 0

abbrev pub read_be64 : Bytes → ℕ
read_be64 (a ∷ b ∷ c ∷ d ∷ rest) = read_be32 (a ∷ b ∷ c ∷ d ∷ []) * 4294967296 + read_be32 rest
read_be64 _ = 0

-- A word as its bytes in network order.
abbrev pub write_be16 : ℕ → Bytes
write_be16 n = n / 256 % 256 ∷ n % 256 ∷ []

abbrev pub write_be32 : ℕ → Bytes
write_be32 n = n / 16777216 % 256 ∷ n / 65536 % 256 ∷ n / 256 % 256 ∷ n % 256 ∷ []

abbrev pub write_be64 : ℕ → Bytes
write_be64 n = write_be32 (n / 4294967296) ++ write_be32 n
