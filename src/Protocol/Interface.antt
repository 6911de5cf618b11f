-- ===== src/Protocol/Interface.antt =====
-- include/server_protocol.h: the parser that a server may be given, as an interface with the laws
-- that the connection relies on.
use libuv_server.Prelude.{ℕ, ◌^◌, ◌⊎◌, inl, inr, refl, ◌≤◌, ◌<◌, ◌≡◌, ◌++◌, ℤ, pos, length, Bytes}

pub data PackageStatus : Type 0 where
  package_less package_full package_error : PackageStatus

-- What `ParsePackage` returns, with its two output arguments.
pub record Parsed : Type 0 where
  pub status : PackageStatus
  pub package_len : ℤ
  pub msg_len : ℤ

pub record ServerProtocol : Type 0 where
  pub parse_package : Bytes → Parsed

-- A full package is a nonempty prefix of the buffer, its length an `int`, and a verdict other than `package_less` does
-- not change when more bytes follow.
pub record IsFraming (p : ServerProtocol) : Type 0 where
  pub full_fits :
      (b : Bytes)
      → (p.parse_package b).status ≡ package_full
      → (n : ℕ) × ((p.parse_package b).package_len ≡ pos n)
        × (0 < n)
        × (n ≤ length b)
        × (n < 2 ^ 31)
  pub full_stays :
      (b more : Bytes)
      → (p.parse_package b).status ≡ package_full
      → p.parse_package (b ++ more) ≡ p.parse_package b
  pub error_stays :
      (b more : Bytes)
      → (p.parse_package b).status ≡ package_error
      → p.parse_package (b ++ more) ≡ p.parse_package b

pub PackageStatus-cases :
    (s : PackageStatus) → (s ≡ package_less) ⊎ ((s ≡ package_full) ⊎ (s ≡ package_error))
PackageStatus-cases package_less = inl refl
PackageStatus-cases package_full = inr (inl refl)
PackageStatus-cases package_error = inr (inr refl)
