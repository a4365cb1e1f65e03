-- ===== src/TestClient.antt =====
-- The demonstration clients of TestClient/TestClient.cpp: `TestTcpClientFunc` and
-- `TestUdpClientFunc`. Of the callbacks, which only log, the copies into an array are modelled.
-- `print` is what `sprintf` writes for a number into `senddata`; the clients stand in the order of
-- the map, which is that of their ids.
pub mod Rounds
pub mod End
mod Tests
use test_libuv.Common.{
  ltb, ℕ, zero, suc, ◌+◌, Bool, true, false, Option, none, some, List, [], ◌∷◌, ◌++◌, if◌then◌else◌,
  ℤ, length, ◌>>=◌, replicate, copy, pos,
}
use test_libuv.Packet.{packet_data, def_pack_head_flag, head_len}
use test_libuv.Packet.Words.{load_word}
use test_libuv.Udp.{Udp}
use test_libuv.Udp
use test_libuv.Looper.{Looper}
use test_libuv.Looper
use test_libuv.PacketSync.{Allocator}
use test_libuv.TcpClient.{
  TcpClient, Effect, init, attach_looper, connect, send, shutdown, is_connected, destroy,
}

-- One turn of the first loop: a client is made, attached, given its callbacks and connected. The
-- second part is the next id.
unfoldable pub make_client : Allocator → (List ℕ) → ℤ → ℤ → Bool → ℕ → (TcpClient × List Effect) × ℕ
make_client a ip tcp_init timer_init garbage next_id =
    let (c, next) = init a next_id def_pack_head_flag garbage in
    let (attached, c1) = attach_looper tcp_init timer_init c in
    let c2 = record c1 { has_conn_cb = true; has_recv_cb = true; has_close_cb = true } in
    let (yes_no, (c3, es)) = connect ip 6666 30 false c2 in ((c3, es), next)

-- `sprintf` of a number into `senddata`, an array of 256 bytes; `none` where the text and the 0
-- behind it leave the array.
unfoldable pub print_number : (ℕ → List ℕ) → ℕ → Option (List ℕ)
print_number print n = if ltb (length (print n)) 256 then some (print n) else none

-- One turn of the loop of 500: each connected client sends the next number, `call_time`.
unfoldable pub send_round :
    (ℕ → List ℕ) → ℕ → List TcpClient → Option (ℕ × List TcpClient × List Effect)
unfolding print_number
send_round print call_time [] = some (call_time, [], [])
send_round print call_time (c ∷ cs) =
    let rest = send_round print call_time cs in
    if is_connected c.status
    then (do
      senddata ← print_number print (suc call_time)
      str ← packet_data c.client_id senddata (length senddata)
      (sent, (c', es)) ← send str (length str) c
      (time, cs', more) ← send_round print (suc call_time) cs
      some (time, c' ∷ cs', es ++ more))
    else (do (time, cs', more) ← rest; some (time, c ∷ cs', more))

-- All that are connected are shut down.
unfoldable pub shutdown_all : List TcpClient → List Effect
shutdown_all [] = []
shutdown_all (c ∷ cs) =
    let rest = shutdown_all cs in if is_connected c.status then (shutdown c).1 ++ rest else rest

-- The loop that makes the clients, by the codes of `uv_tcp_init` and `uv_timer_init` and what
-- `_looper` holds at first for each id.
unfoldable pub make_clients :
    Allocator → (List ℕ) → (ℕ → ℤ) → (ℕ → ℤ) → (ℕ → Bool) → ℕ → ℕ → List TcpClient × List Effect
make_clients a ip tcp_init timer_init garbage zero next_id = ([], [])
make_clients a ip tcp_init timer_init garbage (suc n) next_id =
    let ((c, es), next) =
      make_client a ip (tcp_init next_id) (timer_init next_id) (garbage next_id) next_id in
    let (cs, more) = make_clients a ip tcp_init timer_init garbage n next in (c ∷ cs, es ++ more)

-- The loop of sends. `sleep n` is what the thread of the loop makes of the clients before the loop
-- tests its condition with `n` turns left: before the first turn, in each `Sleep` between two
-- turns, and in the last one, `sleep zero`, before the clients are shut down.
unfoldable pub send_rounds :
    (ℕ → List ℕ)
    → (ℕ → List TcpClient → List TcpClient)
    → ℕ
    → ℕ
    → List TcpClient
    → Option (ℕ × List TcpClient × List Effect)
unfolding send_round
send_rounds print sleep zero call_time cs = some (call_time, sleep zero cs, [])
send_rounds print sleep (suc n) call_time cs = do
  (time, cs1, es) ← send_round print call_time (sleep (suc n) cs)
  (time', cs2, more) ← send_rounds print sleep n time cs1
  some (time', cs2, es ++ more)

-- `delete` of a client after the `delete` of its loop: an event that it pushes is a fault.
unfoldable pub delete_client : TcpClient → Option (Unit {0})
delete_client c = elim (destroy c).1 [ [] ↦ some tt | e ∷ es ↦ none ]

unfoldable pub delete_clients : List TcpClient → Option (Unit {0})
unfolding delete_client
delete_clients [] = some tt
delete_clients (c ∷ cs) = do done ← delete_client c; delete_clients cs

-- `TestTcpClientFunc` on a loop that is initialised, by the numbers of clients and of turns. `rest`
-- is what the thread of the loop does to it after `Close`, and `joined` are the clients when that
-- thread has ended.
unfoldable pub test_tcp_client_with :
    ℕ
    → ℕ
    → Allocator
    → (ℕ → List ℕ)
    → List ℕ
    → (ℕ → ℤ)
    → (ℕ → ℤ)
    → (ℕ → Bool)
    → (ℕ → List TcpClient → List TcpClient)
    → (Looper → Looper)
    → List TcpClient
    → ℕ
    → Looper
    → Option (ℕ × List Effect × List Looper.Effect)
unfolding make_clients send_rounds shutdown_all delete_clients
test_tcp_client_with clientsize turns a print ip tcp_init timer_init garbage sleep rest joined
      next_id l =
    let (cs, connects) = make_clients a ip tcp_init timer_init garbage clientsize next_id in
    do
      (call_time, cs1, sends) ← send_rounds print sleep turns 0 cs
      let (l1, closes) = Looper.destroy rest l
      deleted ← delete_clients joined
      some (call_time, connects ++ (sends ++ shutdown_all cs1), closes)

-- The callbacks of `OnRecvCBEvent`: what they copy into `szRecvData`, with no test of the size.
unfoldable pub on_recv : List ℕ → Option (List ℕ)
on_recv pack = do data_size ← load_word pack 8; copy (replicate 1024 0) 0 pack head_len data_size

unfoldable pub on_udp_recv : List ℕ → Option (List ℕ)
on_udp_recv buff = copy (replicate 1024 0) 0 buff 0 (length buff)

-- `TestUdpClientFunc` up to its loop, and one turn of it: the next number goes to the server.
unfoldable pub test_udp_client : ℤ → ℤ → ℤ → ℤ → ℕ → Udp × List Udp.Effect
test_udp_client init_code addr_code bind_code recv_code id =
    let (attached, u) = Udp.attach_looper init_code (Udp.init id) in
    let (bound, u1, es) = Udp.bind addr_code bind_code recv_code (pos 3333) false u in
    (record u1 { has_recv_cb = true }, es)

unfoldable pub send_datagram :
    (ℕ → ℕ)
    → (List ℕ → ℕ → Bool → ℕ)
    → (ℕ → List ℕ)
    → ℕ
    → List ℕ
    → Udp
    → Option (ℕ × ℕ × List Udp.Effect)
unfolding print_number
send_datagram trunc to_addr print call_time ip u = do
  senddata ← print_number print (suc call_time)
  (size, es) ← Udp.send trunc to_addr senddata (length senddata) ip 6666 false u
  some (suc call_time, size, es)

-- `clientsize`, and `nTry` at first.
abbrev clientsize : ℕ
clientsize = 5

abbrev turns : ℕ
turns = 500

-- With the numbers of the source.
unfoldable pub test_tcp_client :
    Allocator
    → (ℕ → List ℕ)
    → List ℕ
    → (ℕ → ℤ)
    → (ℕ → ℤ)
    → (ℕ → Bool)
    → (ℕ → List TcpClient → List TcpClient)
    → (Looper → Looper)
    → List TcpClient
    → ℕ
    → Looper
    → Option (ℕ × List Effect × List Looper.Effect)
test_tcp_client = test_tcp_client_with clientsize turns

-- The end of `TestUdpClientFunc`: the client is deleted after its loop, and a call of the loop is a
-- fault.
unfoldable pub delete_udp_client : Udp → Option (Unit {0})
delete_udp_client u = elim (Udp.destroy u) [ [] ↦ some tt | e ∷ es ↦ none ]

unfoldable pub end_udp_client : (Looper → Looper) → Looper → Udp → Option (List Looper.Effect)
unfolding delete_udp_client
end_udp_client rest l u =
    let (l1, closes) = Looper.destroy rest l in do deleted ← delete_udp_client u; some closes
