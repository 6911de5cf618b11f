-- ===== src/Tcp/Connection/Split.antt =====
-- A reference for the packages of a stream: all of them are split off at once.
pub mod Reads
use libuv_server.Prelude.{
  ℕ, ◌^◌, ◌%◌, zero, suc, ◌+◌, ◌≤◌, ◌<◌, ◌≡◌, refl, sym, ap, ◌∙◌, inl, inr, true, false, Option,
  none, some, List, [], ◌∷◌, ◌++◌, append_assoc, append-nil, pos, to_size, arith, length,
  length-append, length-drop, is_empty, take, drop, take-append_le, drop-append_le, Bytes,
  Bool-cases,
}
use libuv_server.Protocol.{
  ServerProtocol, PackageStatus-cases, package_full, package_less, package_error, IsFraming,
}
use libuv_server.Connection.{CallbackMessage}
use libuv_server.Uv.{Uv, delivered}
use libuv_server.Tcp.State.{TcpConnection, TcpServer}
use libuv_server.Tcp.Connection.{close, deliver_front, drain, on_data_received}
use libuv_server.Tcp.Connection.Delivery.{
  SameInput, close-SameInput, deliver_front-recv_buffer, deliver_front-delivered, drain-full,
  on_data_received-drain,
}

-- The packages at the front of the bytes, and what follows the last of them.
unfoldable pub split_on : ServerProtocol → ℕ → Bytes → List Bytes × Bytes
split_on protocol zero b = ([], b)
split_on protocol (suc fuel) b = elim (protocol.parse_package b).status [
  | package_full ↦
      let n = to_size (protocol.parse_package b).package_len in
      let (packages, rest) = split_on protocol fuel (drop n b) in (take n b ∷ packages, rest)
  | package_less ↦ ([], b)
  | package_error ↦ ([], b)
]

-- A package takes a byte at least.
abbrev pub split : ServerProtocol → Bytes → List Bytes × Bytes
split protocol b = split_on protocol (suc (length b)) b

-- One package, put before a split.
abbrev pub put_front : Bytes → List Bytes × Bytes → List Bytes × Bytes
put_front p (packages, rest) = (p ∷ packages, rest)

-- Packages that were split off before.
abbrev pub before : List Bytes → List Bytes × Bytes → List Bytes × Bytes
before done (packages, rest) = (done ++ packages, rest)

module _ {protocol : ServerProtocol} (framing : IsFraming protocol) where
  pub split_on-full :
      (fuel : ℕ) (b : Bytes) (n : ℕ)
      → (protocol.parse_package b).status ≡ package_full
      → (protocol.parse_package b).package_len ≡ pos n
      → n < 2 ^ 31
      → split_on protocol (suc fuel) b ≡ put_front (take n b) (split_on protocol fuel (drop n b))
  unfolding split_on
  split_on-full fuel b n full len int =
      let small : n % 2 ^ 64 ≡ n = omega arith in rw (full, split_on) (rw len (rw small))

  pub split_on-less :
      (fuel : ℕ) (b : Bytes)
      → (protocol.parse_package b).status ≡ package_less
      → split_on protocol (suc fuel) b ≡ ([], b)
  unfolding split_on
  split_on-less fuel b less = rw (less, split_on)

  pub split_on-error :
      (fuel : ℕ) (b : Bytes)
      → (protocol.parse_package b).status ≡ package_error
      → split_on protocol (suc fuel) b ≡ ([], b)
  unfolding split_on
  split_on-error fuel b error = rw (error, split_on)

  -- No package begins where no byte is left.
  pub split_on-nil :
      (fuel : ℕ) (b : Bytes) → is_empty b ≡ true → split_on protocol (suc fuel) b ≡ ([], b)
  split_on-nil fuel [] e = elim (PackageStatus-cases (protocol.parse_package []).status) [
    | inl less ↦ split_on-less fuel [] less
    | inr (inr error) ↦ split_on-error fuel [] error
    | inr (inl full) ↦
        let (n, n_eq, n_pos, n_fits, n_int) = framing.full_fits [] full in absurd (omega arith)
  ]
  split_on-nil fuel (x ∷ b) e = cc

  -- Any fuel above the number of bytes gives the same.
  pub split_on-fuel :
      (f g : ℕ) (b : Bytes)
      → length b < f
      → length b < g
      → split_on protocol f b ≡ split_on protocol g b
  unfolding split_on
  split_on-fuel zero g b hf hg = absurd (omega arith)
  split_on-fuel (suc f) zero b hf hg = absurd (omega arith)
  split_on-fuel (suc f) (suc g) b hf hg =
      elim (PackageStatus-cases (protocol.parse_package b).status) [
        | inl less ↦ rw (less, split_on)
        | inr (inr error) ↦ rw (error, split_on)
        | inr (inl full) ↦
            let (n, n_eq, n_pos, n_fits, n_int) = framing.full_fits b full in
            let left =
              split_on-fuel f g (drop n b) (omega (arith, length-drop n b))
                (omega (arith, length-drop n b)) in
            split_on-full f b n full n_eq n_int
            ∙ ap (put_front (take n b)) left
            ∙ sym (split_on-full g b n full n_eq n_int)
      ]

  -- What is split off the front of a stream stays split off when more bytes follow.
  pub split_on-append :
      (f : ℕ) (a b : Bytes)
      → length a < f
      → split protocol (a ++ b)
        ≡ before (split_on protocol f a).0 (split protocol ((split_on protocol f a).1 ++ b))
  split_on-append zero a b h = absurd (omega arith)
  split_on-append (suc f) a b h = elim (PackageStatus-cases (protocol.parse_package a).status) [
    | inl less ↦ rw (split_on-less f a less)
    | inr (inr error) ↦ rw (split_on-error f a error)
    | inr (inl full) ↦
        let (n, n_eq, n_pos, n_fits, n_int) = framing.full_fits a full in
        let same = framing.full_stays a b full in
        split_on-full (length (a ++ b)) (a ++ b) n (ap (λ r. r.status) same ∙ full)
          (ap (λ r. r.package_len) same ∙ n_eq) n_int
        ∙ ap (λ p. put_front p (split_on protocol (length (a ++ b)) (drop n (a ++ b))))
            (take-append_le n a b n_fits)
        ∙ ap (λ d. put_front (take n a) (split_on protocol (length (a ++ b)) d))
            (drop-append_le n a b n_fits)
        ∙ ap (put_front (take n a)) (
            split_on-fuel (length (a ++ b)) (suc (length (drop n a ++ b))) (drop n a ++ b)
              (omega (arith, length-append a b, length-append (drop n a) b, length-drop n a))
              (omega arith)
            ∙ split_on-append f (drop n a) b (omega (arith, length-drop n a)))
        ∙ rw (split_on-full f a n full n_eq n_int)
  ]

  -- What is left over holds no further package.
  pub split_on-idle :
      (f : ℕ) (a : Bytes)
      → length a < f
      → split protocol (split_on protocol f a).1 ≡ ([], (split_on protocol f a).1)
  split_on-idle zero a h = absurd (omega arith)
  split_on-idle (suc f) a h = elim (PackageStatus-cases (protocol.parse_package a).status) [
    | inl less ↦ rw (split_on-less f a less) (split_on-less (length a) a less)
    | inr (inr error) ↦ rw (split_on-error f a error) (split_on-error (length a) a error)
    | inr (inl full) ↦
        let (n, n_eq, n_pos, n_fits, n_int) = framing.full_fits a full in
        rw (split_on-full f a n full n_eq n_int)
          (split_on-idle f (drop n a) (omega (arith, length-drop n a)))
  ]
