-- ===== src/Udp/Delivery.antt =====
-- src/uv_net/udp_server.cpp: what the callback is given of a datagram, and where its answers go.
use libuv_server.Prelude.{
  ℕ, ◌+◌, ◌*◌, ◌≤◌, ◌<◌, ◌≡◌, ap, sym, ◌≢◌, ◌∙◌, true, none, some, List, [], ◌∷◌, ◌++◌,
  append_assoc, append-nil, pos, to_size, gtb_ℤ, ℤ, arith, length, take, take-append_self, Bytes,
}
use libuv_server.Connection.{Peer, Request, send_bytes, close_it, CallbackMessage}
use libuv_server.Protocol.{ServerProtocol, package_full}
use libuv_server.Protocol.FixSize.{fix_size_protocol}
use libuv_server.Protocol.FixSize.Framing.{wrap, parse_package-wrap}
use libuv_server.Udp.{
  SockAddr, af_other, UdpConnection, UdpServer, make_connection, ntohs, peer, send, serve,
  deliver_package, on_message, on_recv,
}

-- The datagrams that some requests ask for: each text to the address, closing nothing.
unfoldable pub replies : SockAddr → List Request → List (Bytes × SockAddr)
replies a [] = []
replies a (send_bytes bytes ∷ rest) = (bytes, a) ∷ replies a rest
replies a (close_it ∷ rest) = replies a rest

serve-outbox :
    (requests : List Request) (c : UdpConnection)
    → (serve requests c).outbox ≡ c.outbox ++ replies c.addr requests
unfolding serve send replies
serve-outbox [] c = sym (append-nil c.outbox)
serve-outbox (send_bytes bytes ∷ rest) c =
    serve-outbox rest (send c bytes)
    ∙ append_assoc c.outbox ((bytes, c.addr) ∷ []) (replies c.addr rest)
serve-outbox (close_it ∷ rest) c = serve-outbox rest c

-- The sender as a callback sees it.
pub sender : Bytes → SockAddr → Peer
unfolding make_connection
sender ip_buf a = peer (make_connection ip_buf a)

make_connection-start :
    (ip_buf : Bytes) (a : SockAddr)
    → ((make_connection ip_buf a).outbox ≡ []) × ((make_connection ip_buf a).addr ≡ a)
unfolding make_connection
make_connection-start ip_buf a = ground arith

serve_fresh :
    (ip_buf : Bytes) (a : SockAddr) (requests : List Request)
    → (serve requests (make_connection ip_buf a)).outbox ≡ replies a requests
serve_fresh ip_buf a requests =
    let start = make_connection-start ip_buf a in
    serve-outbox requests (make_connection ip_buf a)
    ∙ ap (λ o. o ++ replies (make_connection ip_buf a).addr requests) start.0
    ∙ ap (λ b. replies b requests) start.1

-- With no parser, the callback is given a datagram as it came, and each text that it sends goes to
-- the address of the sender, in order.
pub datagram_answered :
    (ip_buf : Bytes) (nread : ℤ) (bytes : Bytes) (buffer : ℕ) (a : SockAddr) (s : UdpServer)
    (callback : CallbackMessage)
    → gtb_ℤ nread 0 ≡ true
    → s.on_message ≡ some callback
    → s.server_protocol ≡ none
    → (on_recv ip_buf nread bytes buffer (some a) s).1
      ≡ replies a (callback (sender ip_buf a) bytes)
unfolding on_recv on_message sender
datagram_answered ip_buf nread bytes buffer a s callback h cb np =
    rw (h, cb, np) (serve_fresh ip_buf a (callback (sender ip_buf a) bytes))

-- The port that a callback sees is the one of the address, for the families of IP.
sender-port :
    (ip_buf : Bytes) (a : SockAddr)
    → a.port_high < 256
    → a.port_low < 256
    → a.sa_family ≢ af_other
    → (sender ip_buf a).port ≡ a.port_high * 256 + a.port_low
unfolding sender make_connection ntohs
sender-port ip_buf a hh hl f = ground arith

package_at_front :
    (msg more : Bytes)
    → length msg + 4 ≤ 65535
    → take (to_size (pos (length msg + 4))) (wrap msg ++ more) ≡ wrap msg
unfolding wrap
package_at_front msg more short =
    ap (λ k. take k (wrap msg ++ more)) size ∙ take-append_self (wrap msg) more
  where
    size : to_size (pos (length msg + 4)) ≡ length (wrap msg)
    size = omega arith

deliver_package-full :
    (callback : CallbackMessage) (protocol : ServerProtocol) (c : UdpConnection) (bytes : Bytes)
    (n : ℤ)
    → (protocol.parse_package bytes).status ≡ package_full
    → (protocol.parse_package bytes).package_len ≡ n
    → deliver_package callback protocol c bytes
      ≡ serve (callback (peer c) (take (to_size n) bytes)) c
unfolding deliver_package
deliver_package-full callback protocol c bytes n full e =
    rw (full, deliver_package) (ap (λ k. serve (callback (peer c) (take (to_size k) bytes)) c) e)

deliver_package-wrap :
    (callback : CallbackMessage) (c : UdpConnection) (msg more : Bytes)
    → length msg + 4 ≤ 65535
    → deliver_package callback fix_size_protocol c (wrap msg ++ more)
      ≡ serve (callback (peer c) (wrap msg)) c
deliver_package-wrap callback c msg more short =
    let whole = parse_package-wrap msg more short in
    deliver_package-full callback fix_size_protocol c (wrap msg ++ more) (pos (length msg + 4))
      (ap (λ r. r.status) whole) (ap (λ r. r.package_len) whole)
    ∙ ap (λ b. serve (callback (peer c) b) c) (package_at_front msg more short)

-- On a UDP server with the protocol of sizes: of a datagram with a package of at most 65535 bytes and
-- more behind it, the callback is given the package alone, what follows is dropped, a second package
-- too, and the texts that the callback sends go to the sender.
pub rest_of_datagram_dropped :
    (ip_buf : Bytes) (nread : ℤ) (msg more : Bytes) (buffer : ℕ) (a : SockAddr) (s : UdpServer)
    (callback : CallbackMessage)
    → gtb_ℤ nread 0 ≡ true
    → s.on_message ≡ some callback
    → s.server_protocol ≡ some fix_size_protocol
    → length msg + 4 ≤ 65535
    → (on_recv ip_buf nread (wrap msg ++ more) buffer (some a) s).1
      ≡ replies a (callback (sender ip_buf a) (wrap msg))
unfolding on_recv on_message sender deliver_package
rest_of_datagram_dropped ip_buf nread msg more buffer a s callback h cb given short =
    rw (h, cb, given)
      (rw (deliver_package-wrap callback (make_connection ip_buf a) msg more short)
        (serve_fresh ip_buf a (callback (sender ip_buf a) (wrap msg))))
