-- ===== src/Protocol/FixSize.antt =====
-- include/fix_size_protocol.h: packages behind a size of four bytes in network order, the size
-- counting itself.
pub mod Framing
use libuv_server.Prelude.{
  ℕ, ◌||◌, ℤ, pos, ltb, ltb_ℤ, gtb_ℤ, sub_ℤ, signed32, to_size, if◌then◌else◌, length, Bytes,
  read_be32,
}
use libuv_server.Protocol.Interface.{
  ServerProtocol, Parsed, PackageStatus, package_less, package_full, package_error,
}

-- A return before the output arguments are set leaves them at the caller's 0.
abbrev unset : PackageStatus → Parsed
unset s = record { status = s; package_len = pos 0; msg_len = pos 0 }

-- From the size check on.
check_size : ℤ → ℕ → Parsed
check_size total_len len =
    if ltb_ℤ total_len 4 || gtb_ℤ total_len 65535
    then unset package_error
    else if ltb len (to_size total_len)
    then unset package_less
    else record { status = package_full; package_len = total_len; msg_len = sub_ℤ total_len 4 }

unfoldable pub parse_package : Bytes → Parsed
unfolding check_size
parse_package buff =
    if ltb (length buff) 4
    then unset package_less
    else check_size (signed32 (read_be32 buff)) (length buff)

abbrev pub fix_size_protocol : ServerProtocol
fix_size_protocol = record { parse_package = parse_package }
