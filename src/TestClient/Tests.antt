-- ===== src/TestClient/Tests.antt =====
-- The demonstration client: a turn of its loop over three clients, the second not connected, and what it
-- does without any.
use test_libuv.Common.{
  ℕ, ◌+◌, ◌==◌, ◌≡◌, refl, true, false, none, some, List, [], ◌∷◌, map, if_elim, if◌then◌else◌,
  arith, length, ℤ, pos, negsuc,
}
use test_libuv.Packet.{def_pack_head_flag}
use test_libuv.PacketSync.Plain.{plain}
use test_libuv.TcpClient.{TcpClient, init, connected, connecting}
use test_libuv.TcpClient.{tcp, on_handle_close}
use test_libuv.TcpClient.Callbacks.{after_connect, after_handle_close}
use test_libuv.TcpClient.Steps.{quiet, connection_ends, loop_closes}
use test_libuv.TcpClient.Life.{here, steps, ends}
use test_libuv.Looper
use test_libuv.TestClient.{shutdown_all, test_tcp_client, test_udp_client, end_udp_client}
use test_libuv.TestClient.Rounds.{connected_ones, AllAttached, KeepsAttached, senders}
use test_libuv.TestClient.End.{
  AllOver, made, all_pushed, test_tcp_client_lem, end_udp_client_dangles,
}

nothing_to_shut_down : shutdown_all [] ≡ []
unfolding shutdown_all
nothing_to_shut_down = refl

abbrev client : ℕ → TcpClient
client id = record (init plain id def_pack_head_flag false).0 {
  looper = true;
  status = connected;
  is_wait_closed = false;
}

abbrev three : List TcpClient
three = client 1000 ∷ record (client 1001) { status = connecting } ∷ client 1002 ∷ []

-- One character, for the numbers up to 9.
abbrev digit : ℕ → List ℕ
digit k = (k + 48) ∷ []

two_senders : length (connected_ones three) ≡ 2
unfolding connected_ones
two_senders = refl

two_turns :
    senders (λ n cs. cs) 2 three ≡ client 1000 ∷ client 1002 ∷ client 1000 ∷ client 1002 ∷ []
unfolding senders connected_ones
two_turns = refl

-- The connections of all clients succeed before the first turn, and the loop closes the handles.
canceled : ℤ
canceled = negsuc 4080

abbrev up : TcpClient → TcpClient
up c = (after_connect canceled (pos 0) (pos 0) c).0

abbrev down : TcpClient → TcpClient
down c = (after_handle_close quiet tcp (on_handle_close tcp (up c)).0).0

abbrev connect_all : ℕ → List TcpClient → List TcpClient
connect_all n cs = if n == 500 then map up cs else cs

up-AllAttached : (cs : List TcpClient) → AllAttached cs → AllAttached (map up cs)
unfolding after_connect
up-AllAttached [] h = tt
up-AllAttached (c ∷ cs) (on, h) = (ground (arith, on), up-AllAttached cs h)

connect_all-KeepsAttached : KeepsAttached connect_all
connect_all-KeepsAttached n cs h =
    if_elim AllAttached (n == 500) (λ t. up-AllAttached cs h) (λ t. h)

closed_now : (c : TcpClient) → (on_handle_close tcp c).0.tcp_closing ≡ true
unfolding on_handle_close
closed_now c = ground arith

down-AllOver : (cs : List TcpClient) → AllOver plain canceled cs (map down cs)
down-AllOver [] = tt
down-AllOver (c ∷ cs) = (
  ends (steps (steps here (connection_ends c (pos 0) (pos 0))) (loop_closes (up c) tcp))
      (closed_now (up c)),
  down-AllOver cs,
)

abbrev five : List TcpClient
five = made 5 plain [] (λ id. pos 0) (λ id. pos 0) (λ id. false) 1000

test_tcp_client_lem_example :
    test_tcp_client plain digit []
      (λ id. pos 0)
      (λ id. pos 0)
      (λ id. false)
      connect_all
      (λ l. l)
      (map down five)
      1000
      Looper.init
    ≡ some (
      length (senders connect_all 500 five),
      all_pushed digit (λ id. pos 0) (λ id. pos 0) connect_all 5 500 1000 five,
      (Looper.close Looper.init).1,
    )
test_tcp_client_lem_example =
    test_tcp_client_lem plain canceled digit [] (λ id. pos 0) (λ id. pos 0) (λ id. false)
      connect_all (λ l. l) (map down five) 1000 Looper.init (λ k. omega arith)
      connect_all-KeepsAttached (down-AllOver five)

end_udp_client_dangles_example :
    end_udp_client (λ l. l) Looper.init (test_udp_client (pos 0) (pos 0) (pos 0) (pos 0) 1).0 ≡ none
end_udp_client_dangles_example =
    end_udp_client_dangles (pos 0) (pos 0) (pos 0) (pos 0) 1 (λ l. l) Looper.init
