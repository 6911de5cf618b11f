-- ===== src/Tests/Udp.antt =====
-- src/uv_net/udp_server.cpp at concrete inputs.
use libuv_server.Prelude.{◌≡◌, refl, some, none, List, [], ◌∷◌, ◌++◌, pos, negsuc, arith, codes}
use libuv_server.Config.{default_config}
use libuv_server.Connection.{CallbackMessage, send_bytes}
use libuv_server.Protocol.FixSize.{fix_size_protocol}
use libuv_server.Protocol.FixSize.Framing.{wrap}
use libuv_server.Udp.{
  SockAddr, af_inet, UdpServer, make_server, set_on_message, set_server_protocol, on_recv,
}
use libuv_server.Udp.Delivery.{replies, rest_of_datagram_dropped}
use libuv_server.Udp.Pool.{Reception, receive_all, one_buffer_suffices}
use libuv_server.BufferPool.Rounds.{IsIdle}

abbrev from_port_8080 : SockAddr
from_port_8080 = record {
  sa_family = af_inet;
  name = codes "127.0.0.1";
  port_high = 31;
  port_low = 144;
}

abbrev echo : CallbackMessage
echo peer bytes = send_bytes bytes ∷ []

abbrev echo_server : UdpServer
echo_server = set_on_message (make_server default_config) (some echo)

-- Two packages in one datagram.
rest_of_datagram_dropped_example :
    (on_recv []
      (pos 12)
      (wrap (1 ∷ 2 ∷ []) ++ wrap (3 ∷ 4 ∷ []))
      0
      (some from_port_8080)
      (set_server_protocol echo_server (some fix_size_protocol))).1
    ≡ (wrap (1 ∷ 2 ∷ []), from_port_8080) ∷ []
unfolding replies
rest_of_datagram_dropped_example =
    rest_of_datagram_dropped [] (pos 12) (1 ∷ 2 ∷ []) (wrap (3 ∷ 4 ∷ [])) 0 from_port_8080
      (set_server_protocol echo_server (some fix_size_protocol)) echo refl refl refl (omega arith)

abbrev two_receptions : List Reception
two_receptions =
    record { nread = pos 1; bytes = 7 ∷ []; addr = some from_port_8080 }
    ∷ record { nread = negsuc 3; bytes = []; addr = none }
    ∷ []

one_buffer_suffices_example :
    IsIdle (receive_all [] two_receptions (make_server default_config)).buffer_pool
one_buffer_suffices_example = one_buffer_suffices [] two_receptions default_config
