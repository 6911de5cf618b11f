-- ===== src/Tcp/Connection/Fragments.antt =====
-- src/uv_net/tcp_connection.cpp: a stream of packages arrives whole, however it is cut into reads.
use libuv_server.Prelude.{
  ℕ, suc, ◌^◌, ◌<◌, ◌≡◌, refl, sym, ap, ◌∙◌, some, List, [], ◌∷◌, ◌++◌, pos, arith, length,
  length-append, drop, take-append_self, drop-append_self, concat, All, Bytes,
}
use libuv_server.Protocol.{ServerProtocol, package_full, IsFraming}
use libuv_server.Connection.{CallbackMessage}
use libuv_server.Uv.{Uv, delivered}
use libuv_server.Tcp.State.{TcpConnection, TcpServer}
use libuv_server.Tcp.Connection.Split.{
  split_on, split, put_front, split_on-full, split_on-nil, split_on-fuel,
}
use libuv_server.Tcp.Connection.Split.Reads.{stream, receive_all, receive_all-split}

-- The parser takes exactly these bytes for a package.
pub record IsPackage (protocol : ServerProtocol) (b : Bytes) : Type 0 where
  pub is_full : (protocol.parse_package b).status ≡ package_full
  pub is_whole : (protocol.parse_package b).package_len ≡ pos (length b)

module _ {protocol : ServerProtocol} (framing : IsFraming protocol) where
  package_size : (p : Bytes) → IsPackage protocol p → (0 < length p) × (length p < 2 ^ 31)
  package_size p w =
      let (n, n_eq, n_pos, n_fits, n_int) = framing.full_fits p w.is_full in
      let same : pos n ≡ pos (length p) = sym n_eq ∙ w.is_whole in (ground arith, ground arith)

  -- The reference splits packages where they were joined.
  pub split-concat :
      (packages : List Bytes)
      → All (IsPackage protocol) packages
      → split protocol (concat packages) ≡ (packages, [])
  split-concat [] whole = split_on-nil framing 0 [] refl
  split-concat (p ∷ ps) whole =
      let same = framing.full_stays p (concat ps) (whole.0.is_full) in
      let size = package_size p whole.0 in
      split_on-full framing (length (p ++ concat ps)) (p ++ concat ps) (length p)
        (ap (λ r. r.status) same ∙ whole.0.is_full)
        (ap (λ r. r.package_len) same ∙ whole.0.is_whole) size.1
      ∙ ap
          (λ b.
            put_front b
              (split_on protocol (length (p ++ concat ps)) (drop (length p) (p ++ concat ps))))
          (take-append_self p (concat ps))
      ∙ ap (λ b. put_front p (split_on protocol (length (p ++ concat ps)) b))
          (drop-append_self p (concat ps))
      ∙ ap (put_front p) (
          split_on-fuel framing (length (p ++ concat ps)) (suc (length (concat ps))) (concat ps)
            (omega (arith, length-append p (concat ps), size.0)) (omega arith)
          ∙ split-concat ps whole.1)

  -- A server with a parser and a message callback: where a stream of whole packages arrives in
  -- reads cut in any way, the callback is called once for each package, in order, and no byte is
  -- left in the buffer.
  pub packages_arrive_whole :
      (uv : Uv) (server : TcpServer) (callback : CallbackMessage) (reads : List (ℕ × Bytes))
      (c : TcpConnection) (packages : List Bytes)
      → server.on_message ≡ some callback
      → server.server_protocol ≡ some protocol
      → All (IsPackage protocol) packages
      → c.recv_buffer ≡ []
      → stream reads ≡ concat packages
      → (c' : TcpConnection) × (receive_all uv server reads c ≡ some c')
        × (delivered c'.calls ≡ delivered c.calls ++ packages)
        × (c'.recv_buffer ≡ [])
  packages_arrive_whole uv server callback reads c packages calls_back given whole empty e =
      let (c', ran, handed, left) =
        receive_all-split uv server framing calls_back reads c given empty in
      let cut = ap (split protocol) e ∙ split-concat packages whole in
      (c', ran, handed ∙ ap (λ s. delivered c.calls ++ s.0) cut, left ∙ ap (λ s. s.1) cut)
