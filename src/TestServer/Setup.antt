-- ===== src/TestServer/Setup.antt =====
-- The objects that the demonstration programs have set up, whatever libuv returns on the way.
use test_libuv.Common.{ℕ, ◌≡◌, Bool, true, not, List, arith, ℤ, is_zero}
use test_libuv.Packet.{def_pack_head_flag}
use test_libuv.TcpServer.{
  init, attach_looper, start, bind, listen, set_option, on_new_connect_cb_event,
  on_tcp_client_close_cb_event, on_tcp_client_recv_cb_event,
}
use test_libuv.TcpServer.Maps.{IsMap, in_map, in_idle}
use test_libuv.TcpServer.Ownership.{IsSound, in_freed}
use test_libuv.TcpServer.Writes.{IsPool, AllValid}
use test_libuv.TcpSession.Steps.{IsIntact}
use test_libuv.Udp.{Udp}
use test_libuv.Udp
use test_libuv.TestServer.{test_tcp_svr, test_udp_svr}
use test_libuv.TestClient.{test_udp_client}

-- The server has its head and callbacks, it is open exactly if its handle could be made, and it is
-- intact, so that every order of callbacks keeps it so.
pub test_tcp_svr_lem :
    (init_code addr_code bind_code listen_code keep_code : ℤ) (ip : List ℕ) (garbage : Bool)
    (last_id : ℕ)
    → let s = test_tcp_svr init_code addr_code bind_code listen_code keep_code ip garbage last_id in
      IsIntact s
      × (s.packet_head ≡ def_pack_head_flag)
      × (s.looper ≡ true)
      × (s.has_recv_cb ≡ true)
      × (s.is_closed ≡ not (is_zero init_code))
unfolding test_tcp_svr init attach_looper start bind listen set_option on_new_connect_cb_event
    on_tcp_client_close_cb_event on_tcp_client_recv_cb_event IsSound IsPool AllValid IsMap in_map
    in_idle in_freed
test_tcp_svr_lem i a b l k ip garbage last_id = (
  ((λ x. ground arith, ground arith, ground arith), (ground arith, ground arith)),
  ground arith,
  ground arith,
  ground arith,
  ground arith,
)

-- A UDP endpoint of the programs is attached and has its callback.
pub test_udp_svr_lem :
    (init_code addr_code bind_code recv_code : ℤ) (id : ℕ)
    → let u = (test_udp_svr init_code addr_code bind_code recv_code id).0 in
      (u.loop ≡ true) × (u.has_recv_cb ≡ true)
unfolding test_udp_svr Udp.init Udp.attach_looper Udp.bind
test_udp_svr_lem i a b r id = (ground arith, ground arith)

pub test_udp_client_lem :
    (init_code addr_code bind_code recv_code : ℤ) (id : ℕ)
    → let u = (test_udp_client init_code addr_code bind_code recv_code id).0 in
      (u.loop ≡ true) × (u.has_recv_cb ≡ true)
unfolding test_udp_client Udp.init Udp.attach_looper Udp.bind
test_udp_client_lem i a b r id = (ground arith, ground arith)
