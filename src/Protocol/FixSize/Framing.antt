-- ===== src/Protocol/FixSize/Framing.antt =====
-- include/fix_size_protocol.h: the laws of a package parser, and the packages that it accepts.
use libuv_server.Prelude.{
  ℕ, ◌^◌, zero, suc, ◌+◌, ◌≤◌, ◌<◌, ◌≡◌, refl, ◌∷◌, ◌++◌, pos, arith, length, length-append, take,
  length-take, read_be32, write_be32, ◌↔◌, ◌⊎◌, Bytes,
}
use libuv_server.Protocol.Interface.{package_less, package_full, package_error, IsFraming}
use libuv_server.Protocol.FixSize.{parse_package, fix_size_protocol}

full_fits :
    (b : Bytes)
    → (parse_package b).status ≡ package_full
    → (n : ℕ) × ((parse_package b).package_len ≡ pos n) × (0 < n) × (n ≤ length b) × (n < 2 ^ 31)
unfolding parse_package
full_fits b h = (read_be32 b, ground arith, ground arith, ground arith, ground arith)

full_stays :
    (b more : Bytes)
    → (parse_package b).status ≡ package_full
    → parse_package (b ++ more) ≡ parse_package b
unfolding parse_package
full_stays (a ∷ b ∷ c ∷ d ∷ rest) more h = ground (arith, length-append rest more)
full_stays _ more h = ground arith

error_stays :
    (b more : Bytes)
    → (parse_package b).status ≡ package_error
    → parse_package (b ++ more) ≡ parse_package b
unfolding parse_package
error_stays (a ∷ b ∷ c ∷ d ∷ rest) more h = ground (arith, length-append rest more)
error_stays _ more h = ground arith

-- The parser satisfies what a connection relies on.
pub fix_size-IsFraming : IsFraming fix_size_protocol
fix_size-IsFraming = record {
  full_fits = full_fits;
  full_stays = full_stays;
  error_stays = error_stays;
}

-- The package that carries a message: its size, then the message.
unfoldable pub wrap : Bytes → Bytes
wrap msg = write_be32 (length msg + 4) ++ msg

-- A package of at most 65535 bytes is accepted whole, whatever follows it.
pub parse_package-wrap :
    (msg rest : Bytes)
    → length msg + 4 ≤ 65535
    → parse_package (wrap msg ++ rest) ≡ record {
      status = package_full;
      package_len = pos (length msg + 4);
      msg_len = pos (length msg);
    }
unfolding parse_package wrap
parse_package-wrap msg rest h = ground (arith, length-append msg rest)

-- Of a package, any proper part from its start is too short, and never an error.
pub parse_package-take :
    (msg : Bytes) (k : ℕ)
    → length msg + 4 ≤ 65535
    → k < length (wrap msg)
    → (parse_package (take k (wrap msg))).status ≡ package_less
unfolding parse_package wrap
parse_package-take msg zero h lt = refl
parse_package-take msg (suc zero) h lt = refl
parse_package-take msg (suc (suc zero)) h lt = refl
parse_package-take msg (suc (suc (suc zero))) h lt = refl
parse_package-take msg (suc (suc (suc (suc k)))) h lt = ground (arith, length-take k msg)

-- The verdict is an error exactly where four bytes are there and hold a size out of range.
pub parse_package-error :
    (b : Bytes)
    → ((parse_package b).status ≡ package_error)
      ↔ ((4 ≤ length b) × ((read_be32 b < 4) ⊎ (65535 < read_be32 b)))
unfolding parse_package
parse_package-error b = (λ h. (ground arith, ground arith), λ h. ground arith)
