-- ===== src/RoundTrip/Tests.antt =====
-- Two messages, cut in three places on the way there and once on the way back.
use test_libuv.Common.{
  ℕ, ◌≤◌, ◌<◌, ◌⊎◌, ℤ, pos, ◌≡◌, refl, true, false, none, some, List, [], ◌∷◌, ◌++◌, map, arith,
  length, replicate, take, drop,
}
use test_libuv.Packet.{NetPacket, def_pack_head_flag, packet_bytes, packet_data}
use test_libuv.PacketSync.{PacketSync, done}
use test_libuv.PacketSync.Receiver.{after_recvs}
use test_libuv.PacketSync.Plain.{plain}
use test_libuv.TcpServer.{Session, active}
use test_libuv.TcpServer
use test_libuv.TcpSession.Receive.{session_receiver}
use test_libuv.TcpClient.{TcpClient, connected, no_error}
use test_libuv.TcpClient.Receive.{client_receiver}
use test_libuv.Udp.{Udp}
use test_libuv.Udp
use test_libuv.Udp.Sending.{datagram}
use test_libuv.TestServer.{on_udp_recv, test_udp_svr}
use test_libuv.TestServer.Setup.{test_udp_client_lem, test_udp_svr_lem}
use test_libuv.TestClient.{send_datagram, test_udp_client}
use test_libuv.TestClient
use test_libuv.RoundTrip.Datagram.{udp_round_trip}
use test_libuv.RoundTrip.{IsIdle, outgoing, echoed, gets, echo_round_trip}

abbrev pub empty_packet : PacketSync
empty_packet = record {
  base = 0 ∷ 0 ∷ [];
  len = 2;
  real_packet_len = 0;
  head = def_pack_head_flag;
  has_callback = true;
}

pub empty_packet-IsIdle : IsIdle empty_packet
empty_packet-IsIdle = record {
  valid = record { allocated = refl; kept = omega arith; small = omega arith };
  no_bytes = refl;
  right_head = refl;
  called = refl;
}

abbrev pub session : Session
session = record {
  ctx = record {
    address = 0;
    handle = active;
    packet = empty_packet;
    client_id = 1;
    parent_session = some 1;
  };
  is_closed = false;
  looper = true;
}

abbrev pub client : TcpClient
client = record {
  client_id = 1000;
  packet_head = def_pack_head_flag;
  status = connected;
  is_wait_closed = false;
  is_ipv6 = false;
  conn_time_out = 30;
  connect_ip = [];
  connect_port = 6666;
  errmsg = no_error;
  looper = true;
  tcp_closing = false;
  timer_closing = true;
  packet = empty_packet;
  has_conn_cb = true;
  has_recv_cb = true;
  has_close_cb = true;
}

abbrev messages : List (List ℕ)
messages = (b'4' ∷ b'2' ∷ []) ∷ (b'7' ∷ []) ∷ []

abbrev there : List (List ℕ)
there =
    (0x32 ∷ 0xD5 ∷ [])
    ∷ (0x32 ∷ 0xD5 ∷ 0xE8 ∷ 3 ∷ 0 ∷ 0 ∷ 2 ∷ 0 ∷ 0 ∷ 0 ∷ b'4' ∷ [])
    ∷ []
    ∷ (b'2' ∷ 0x32 ∷ [])
    ∷ (0xD5 ∷ 0x32 ∷ 0xD5 ∷ 0xE8 ∷ 3 ∷ 0 ∷ 0 ∷ 1 ∷ 0 ∷ 0 ∷ 0 ∷ b'7' ∷ [])
    ∷ []

abbrev back : List (List ℕ)
back =
    (0x32 ∷ 0xD5 ∷ 0x32 ∷ 0xD5 ∷ 0xE8 ∷ 3 ∷ 0 ∷ 0 ∷ 2 ∷ 0 ∷ 0 ∷ 0 ∷ b'4' ∷ b'2' ∷ 0x32 ∷ [])
    ∷ (0xD5 ∷ 0x32 ∷ 0xD5 ∷ 0xE8 ∷ 3 ∷ 0 ∷ 0 ∷ 1 ∷ 0 ∷ 0 ∷ 0 ∷ b'7' ∷ [])
    ∷ []

abbrev whole : List ℕ
whole =
    0x32 ∷ 0xD5 ∷ 0x32 ∷ 0xD5 ∷ 0xE8 ∷ 3 ∷ 0 ∷ 0 ∷ 2 ∷ 0 ∷ 0 ∷ 0 ∷ b'4' ∷ b'2' ∷ 0x32 ∷ 0xD5 ∷ 0x32
    ∷ 0xD5 ∷ 0xE8 ∷ 3 ∷ 0 ∷ 0 ∷ 1 ∷ 0 ∷ 0 ∷ 0 ∷ b'7' ∷ []

echo_round_trip_example :
    (v' : Session) × (es : List TcpServer.Effect) × (c' : TcpClient) × (after_recvs
        (session_receiver plain 3 true)
        there
        session
      ≡ done (v', es))
    × (echoed es ≡ some whole)
    × (after_recvs (client_receiver plain 3) back client ≡ done (c', map (gets 1000) messages))
    × IsIdle v'.ctx.packet
    × IsIdle c'.packet
unfolding outgoing packet_data test_libuv.Common.store test_libuv.Packet.header_bytes
    test_libuv.Common.copy
echo_round_trip_example =
    echo_round_trip plain 3 1000 messages there back session client empty_packet-IsIdle
      empty_packet-IsIdle refl (omega arith) (omega arith) (omega arith) refl refl

-- The endpoints as the two programs set them up.
abbrev client_end : Udp
client_end = (test_udp_client (pos 0) (pos 0) (pos 0) (pos 0) 1).0

abbrev server_end : Udp
server_end = (test_udp_svr (pos 0) (pos 0) (pos 0) (pos 0) 2).0

client_ready : (client_end.loop ≡ true) × (client_end.has_recv_cb ≡ true)
client_ready = test_udp_client_lem (pos 0) (pos 0) (pos 0) (pos 0) 1

server_ready : (server_end.loop ≡ true) × (server_end.has_recv_cb ≡ true)
server_ready = test_udp_svr_lem (pos 0) (pos 0) (pos 0) (pos 0) 2

udp_round_trip_example :
    let text : List ℕ = b'4' ∷ b'2' ∷ [] in
    let e = datagram (λ x. x) text 2 77 client_end in
    let f = datagram (λ x. x) text 2 5 server_end in
    (send_datagram (λ x. x) (λ ip port v6. 77) (λ x. text) 41 [] client_end
      ≡ some (42, 2, Udp.pushes e ∷ []))
    × (Udp.do_event plain e client_end ≡ some (Udp.sends 77 text ∷ []))
    × (Udp.after_recv (b'4' ∷ b'2' ∷ 0 ∷ []) (pos 2) 5 server_end
        ≡ some (Udp.calls_recv text 5 ∷ []))
    × (on_udp_recv (λ x. x) text 5 server_end ≡ some (2, Udp.pushes f ∷ []))
    × (Udp.do_event plain f server_end ≡ some (Udp.sends 5 text ∷ []))
    × (Udp.after_recv text (pos 2) 77 client_end ≡ some (Udp.calls_recv text 77 ∷ []))
    × ((array : List ℕ) × (TestClient.on_udp_recv text ≡ some array))
udp_round_trip_example =
    udp_round_trip plain (λ x. x) (λ ip port v6. 77) (λ x. b'4' ∷ b'2' ∷ []) 41 1 5 77 []
      (b'4' ∷ b'2' ∷ []) (b'4' ∷ b'2' ∷ 0 ∷ []) (b'4' ∷ b'2' ∷ []) client_end server_end
      client_ready.0 server_ready.0 client_ready.1 server_ready.1 refl refl (omega arith)
      (omega arith) refl (omega arith) refl
