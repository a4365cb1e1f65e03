-- ===== src/TestServer/Tests.antt =====
-- The echo on a packet of two bytes.
use test_libuv.Common.{◌≡◌, ◌≤◌, ◌<◌, ◌⊎◌, refl, none, some, [], ◌∷◌, arith, false, pos}
use test_libuv.Packet.{NetPacket, packet_bytes, def_pack_head_flag}
use test_libuv.Looper
use test_libuv.PacketSync.{fault}
use test_libuv.PacketSync.Plain.{plain}
use test_libuv.TcpServer.Accept.{accept_connection}
use test_libuv.TcpSession.Steps.{here, next, accepts}
use test_libuv.TestServer.{on_client_recv, test_tcp_svr, end_tcp_svr}
use test_libuv.TestServer.End.{end_tcp_svr_dangles}
use test_libuv.TestServer.Echo.{on_client_recv_lem}

abbrev hello : NetPacket
hello = record { flag = def_pack_head_flag; type = 1000; data_size = 2; body = b'4' ∷ b'2' ∷ [] }

on_client_recv_lem_example :
    ((2 ≤ 1024) × (on_client_recv (packet_bytes hello) ≡ some (packet_bytes hello)))
    ⊎ ((1024 < 2) × (on_client_recv (packet_bytes hello) ≡ none))
on_client_recv_lem_example = on_client_recv_lem hello refl (omega arith)

-- One client has come.
end_tcp_svr_dangles_example :
    let s = test_tcp_svr (pos 0) (pos 0) (pos 0) (pos 0) (pos 0) [] false 0 in
    end_tcp_svr false
      (λ l. l)
      Looper.init
      (accept_connection plain (pos 0) (pos 0) (pos 0) (pos 0) s).0
    ≡ fault
end_tcp_svr_dangles_example =
    end_tcp_svr_dangles plain (pos 0) (pos 0) (pos 0) (pos 0) (pos 0) [] false 0 (λ l. l)
      Looper.init _ (next here (accepts (pos 0) (pos 0) (pos 0) (pos 0)))
