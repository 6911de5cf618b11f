-- ===== src/WebSocket/Parser/Mask.antt =====
-- src/uv_net/websocket_connection.cpp: taking a mask off what a client masked.
use Prim.Native.Nat.{bit_xor}
use libuv_server.Prelude.{
  ℕ, zero, suc, ◌%◌, ◌<◌, ◌≡◌, refl, ap, true, [], ◌∷◌, arith, ◌==◌, ==_iff, get_or, length, Bytes,
  AreBytes, all_below, all_below_sound,
}
use libuv_server.WebSocket.Parser.{unmask}

xor_table : all_below 256 (λ k. all_below 256 (λ b. bit_xor (bit_xor b k) k == b)) ≡ true
unfolding all_below
xor_table = refl

xor_twice : (b k : ℕ) → b < 256 → k < 256 → bit_xor (bit_xor b k) k ≡ b
xor_twice b k hb hk = (==_iff _ _).0 (
    all_below_sound 256 (λ b. bit_xor (bit_xor b k) k == b) b (all_below_sound 256 _ k xor_table hk)
      hb)

get_or-lt : (key : Bytes) (i : ℕ) → AreBytes key → get_or key i 0 < 256
get_or-lt [] i h = omega arith
get_or-lt (k ∷ key) zero h = h.0
get_or-lt (k ∷ key) (suc i) h = get_or-lt key i h.1

-- Masking is its own inverse, from any place in the payload on.
pub unmask-unmask :
    (key : Bytes) (i : ℕ) (bytes : Bytes)
    → AreBytes key
    → AreBytes bytes
    → unmask key i (unmask key i bytes) ≡ bytes
unfolding unmask
unmask-unmask key i [] hk h = refl
unmask-unmask key i (b ∷ bs) hk h =
    rw (xor_twice b (get_or key (i % 4) 0) h.0 (get_or-lt key (i % 4) hk))
      (ap (◌∷◌ b) (unmask-unmask key (suc i) bs hk h.1))

pub length-unmask :
    (key : Bytes) (i : ℕ) (bytes : Bytes) → length (unmask key i bytes) ≡ length bytes
unfolding unmask
length-unmask key i [] = refl
length-unmask key i (b ∷ bs) = ap suc (length-unmask key (suc i) bs)
