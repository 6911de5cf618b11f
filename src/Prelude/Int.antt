-- ===== src/Prelude/Int.antt =====
-- Signed integers as far as the code compares and converts them.
use Prim.Native.Nat.{ℕ, ◌+◌, ◌-◌, ◌%◌, ◌^◌}
use mathlib.Core.Bool.{Bool, true, false}
use libuv_server.Prelude.Tests.{ltb, ◌==◌, if◌then◌else◌}

-- `negsuc n` is -(n + 1).
pub data ℤ : Type 0 where
  pos : ℕ → ℤ
  negsuc : ℕ → ℤ

abbrev pub is_negative : ℤ → Bool
is_negative (pos n) = false
is_negative (negsuc n) = true

infix 50 ◌==ℤ◌
abbrev pub ◌==ℤ◌ : ℤ → ℤ → Bool
pos a ==ℤ pos b = a == b
pos a ==ℤ negsuc b = false
negsuc a ==ℤ pos b = false
negsuc a ==ℤ negsuc b = a == b

-- `a < b` for a number `b`.
abbrev pub ltb_ℤ : ℤ → ℕ → Bool
ltb_ℤ (pos a) b = ltb a b
ltb_ℤ (negsuc a) b = true

-- `b < a` for a number `b`.
abbrev pub gtb_ℤ : ℤ → ℕ → Bool
gtb_ℤ (pos a) b = ltb b a
gtb_ℤ (negsuc a) b = false

-- `a - b` for a number `b`.
abbrev pub sub_ℤ : ℤ → ℕ → ℤ
sub_ℤ (pos a) b = if ltb a b then negsuc (b - a - 1) else pos (a - b)
sub_ℤ (negsuc a) b = negsuc (a + b)

-- The conversion of a 32-bit pattern to `int`.
abbrev pub signed32 : ℕ → ℤ
signed32 w = if ltb w (2 ^ 31) then pos w else negsuc (2 ^ 32 - w - 1)

-- The conversion of an `int` or an `int64_t` to `size_t`.
abbrev pub to_size : ℤ → ℕ
to_size (pos n) = n % 2 ^ 64
to_size (negsuc n) = 2 ^ 64 - 1 - n % 2 ^ 64
