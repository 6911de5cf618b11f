-- ===== src/Log.antt =====
-- include/Logger.h: the name of the log file and the set-up of plog. The clock, `localtime_r`,
-- `strftime` and plog itself are not part of the repository's own code.
use libuv_server.Prelude.{
  ℕ, ◌+◌, ◌-◌, ◌^◌, ◌<◌, ◌≡◌, refl, ◌⊎◌, inl, inr, Bool-cases, List, [], ◌∷◌, if◌then◌else◌, ◌==◌,
  ℤ, pos, negsuc, arith, length, All, Bytes, codes,
}

-- What a C string holds: the bytes up to the first NUL.
abbrev pub c_string : Bytes → Bytes
c_string [] = []
c_string (b ∷ bs) = let rest = c_string bs in if b == 0 then [] else b ∷ rest

-- An `int` where a `size_t` is expected.
abbrev pub int_to_size : ℤ → ℕ
int_to_size (pos n) = n
int_to_size (negsuc n) = 2 ^ 64 - (n + 1)

-- The calls of plog, with the severity, the file, its largest size and the number of files.
pub data PlogCall : Type 0 where
  init : ℤ → Bytes → ℕ → ℤ → PlogCall
  add_appender : PlogCall

module _ {Tm : Type 0} (local_time : ℕ → Tm) (strftime : ℕ → Bytes → Tm → Bytes) where
  -- `strftime size format tm` are the bytes that `strftime` writes into `size` bytes, without the NUL
  -- behind them; none where they do not fit.
  unfoldable pub generate_filename : ℕ → Bytes
  generate_filename now =
      if length (strftime 64 (codes "%Y%m%d-%H.log") (local_time now)) == 0
      then codes "log_unknown.log"
      else c_string (strftime 64 (codes "%Y%m%d-%H.log") (local_time now))

  -- `LogInit` at the time `now`, in the order of its calls.
  unfoldable pub log_init : ℕ → ℤ → ℤ → ℤ → List PlogCall
  log_init now level rotation_size left_file_num =
      init level (generate_filename now) (int_to_size rotation_size) left_file_num
      ∷ add_appender
      ∷ []

  c_string_whole : (bs : Bytes) → All (λ b. 0 < b) bs → c_string bs ≡ bs
  c_string_whole [] h = refl
  c_string_whole (b ∷ bs) h = ground (arith, c_string_whole bs h.1)

  -- Where `strftime` writes no NUL and keeps to the size that it is given, the log file has a name,
  -- and the name with its NUL fits into the buffer: it is what `strftime` wrote or the fixed one.
  generate_filename-fits :
      (now : ℕ)
      → (let written = strftime 64 (codes "%Y%m%d-%H.log") (local_time now) in
          (length written < 64) × All (λ b. 0 < b) written)
      → (0 < length (generate_filename now))
        × (length (generate_filename now) < 64)
        × ((generate_filename now ≡ codes "log_unknown.log")
            ⊎ (generate_filename now ≡ strftime 64 (codes "%Y%m%d-%H.log") (local_time now)))
  unfolding generate_filename
  generate_filename-fits now (short, whole) =
      let same = c_string_whole _ whole in
      elim (Bool-cases (length (strftime 64 (codes "%Y%m%d-%H.log") (local_time now)) == 0)) [
        | inl none_written ↦ rw none_written (omega arith, omega arith, inl refl)
        | inr some_written ↦ rw (some_written, same) (ground arith, short, inr refl)
      ]
