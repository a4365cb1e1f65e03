-- ===== src/TestClient/End.antt =====
-- The demonstration functions of TestClient/TestClient.cpp from their first line to their last:
-- what their clients push, and what the deletes at the end do to a loop that is deleted already.
use test_libuv.Common.{
  ℕ, zero, suc, ◌+◌, ◌≤◌, ◌≡◌, refl, ap, ap₂, ◌∙◌, Bool, true, false, ◌&&◌, none, some, List, [],
  ◌∷◌, ◌++◌, arith, length, ℤ, is_zero, if◌then◌else◌,
}
use test_libuv.Event.{UvEventType, plain_event}
use test_libuv.Looper.{Looper}
use test_libuv.Looper
use test_libuv.PacketSync.{Allocator}
use test_libuv.TcpClient.{TcpClient, Effect, pushes, init, attach_looper, connect}
use test_libuv.TcpClient.Life.{Life, Life-destroy}
use test_libuv.TestClient.{
  make_client, make_clients, shutdown_all, delete_client, delete_clients, test_tcp_client_with,
  test_tcp_client, test_udp_client, delete_udp_client, end_udp_client,
}
use test_libuv.TestClient.Rounds.{
  AllAttached, KeepsAttached, numbered, senders, after, send_rounds_lem,
}
use test_libuv.Udp

-- The connect events of the clients from `id` on: one for each that could be attached.
unfoldable pub connect_events : (ℕ → ℤ) → (ℕ → ℤ) → ℕ → ℕ → List Effect
connect_events tcp_init timer_init zero id = []
connect_events tcp_init timer_init (suc n) id =
    (if is_zero (tcp_init id) && is_zero (timer_init id)
      then pushes (plain_event UvEventType.connect id) ∷ []
      else [])
    ++ connect_events tcp_init timer_init n (id + 1)

make_client_lem :
    (a : Allocator) (ip : List ℕ) (i t : ℤ) (garbage : Bool) (id : ℕ)
    → let ((c, es), next) = make_client a ip i t garbage id in
      (c.looper ≡ true)
      × (es ≡ (
          if is_zero i && is_zero t then pushes (plain_event UvEventType.connect id) ∷ [] else []))
      × (next ≡ id + 1)
unfolding make_client init attach_looper connect
make_client_lem a ip i t garbage id = (ground arith, ground arith, refl)

make_clients_lem :
    (a : Allocator) (ip : List ℕ) (i t : ℕ → ℤ) (garbage : ℕ → Bool) (n id : ℕ)
    → let (cs, es) = make_clients a ip i t garbage n id in
      AllAttached cs × (es ≡ connect_events i t n id)
unfolding make_clients connect_events
make_clients_lem a ip i t garbage zero id = (tt, refl)
make_clients_lem a ip i t garbage (suc n) id =
    let (on, es, next) = make_client_lem a ip (i id) (t id) (garbage id) id in
    let (ons, more) = make_clients_lem a ip i t garbage n (id + 1) in
    (
      (on, rw (next) ons),
      ap₂ (λ now later. now ++ later) es
          (ap (λ k. (make_clients a ip i t garbage n k).1) next ∙ more),
    )

-- What has become of each client, from the loop that makes them to the end of the loop's thread:
-- its handle is closed.
module _ (a : Allocator) (ecanceled : ℤ) where
  abbrev pub AllOver : List TcpClient → List TcpClient → Type 0
  AllOver [] [] = Unit
  AllOver (c ∷ cs) (d ∷ ds) = Life a ecanceled c false d true × AllOver cs ds
  AllOver _ _ = ⊥

  delete_clients_lem : (cs ds : List TcpClient) → AllOver cs ds → delete_clients ds ≡ some tt
  unfolding delete_clients delete_client
  delete_clients_lem [] [] h = refl
  delete_clients_lem (c ∷ cs) (d ∷ ds) (l, h) =
      rw (Life-destroy a ecanceled l, delete_client, delete_clients_lem cs ds h) refl
  delete_clients_lem [] (d ∷ ds) h = absurd h
  delete_clients_lem (c ∷ cs) [] h = absurd h

-- The clients as the first loop has made them, and all that is pushed by the end.
abbrev pub made : ℕ → Allocator → List ℕ → (ℕ → ℤ) → (ℕ → ℤ) → (ℕ → Bool) → ℕ → List TcpClient
made n a ip i t garbage id = (make_clients a ip i t garbage n id).0

abbrev pub all_pushed :
    (ℕ → List ℕ)
    → (ℕ → ℤ)
    → (ℕ → ℤ)
    → (ℕ → List TcpClient → List TcpClient)
    → ℕ
    → ℕ
    → ℕ
    → List TcpClient
    → List Effect
all_pushed print i t sleep n turns id cs =
    connect_events i t n id
    ++ (numbered print 0 (senders sleep turns cs) ++ shutdown_all (after sleep turns cs))

module _ (a : Allocator) (ecanceled : ℤ) (print : ℕ → List ℕ) (ip : List ℕ) (i t : ℕ → ℤ)
    (garbage : ℕ → Bool) (sleep : ℕ → List TcpClient → List TcpClient) (rest : Looper → Looper)
    (joined : List TcpClient) (id : ℕ) (l : Looper) where
  test_tcp_client_with_lem :
      (n turns : ℕ)
      → ((k : ℕ) → length (print k) ≤ 255)
      → KeepsAttached sleep
      → AllOver a ecanceled (made n a ip i t garbage id) joined
      → test_tcp_client_with n turns a print ip i t garbage sleep rest joined id l
        ≡ some (
          length (senders sleep turns (made n a ip i t garbage id)),
          all_pushed print i t sleep n turns id (made n a ip i t garbage id),
          (Looper.close l).1,
        )
  unfolding test_tcp_client_with Looper.destroy
  test_tcp_client_with_lem n turns h keeps over =
      let (on, events) = make_clients_lem a ip i t garbage n id in
      let cs = made n a ip i t garbage id in
      rw
        (
          send_rounds_lem print sleep turns 0 cs h keeps on,
          delete_clients_lem a ecanceled cs joined over,
          events,
        )
        (ap (λ k. some (k, all_pushed print i t sleep n turns id cs, (Looper.close l).1))
          (omega arith))

  -- The text of a number has at most 255 bytes, the thread of the loop acts on the clients only
  -- before the first turn and in the calls of `Sleep` and detaches none, and by the end of that
  -- thread the handle of each client is closed: then `TestTcpClientFunc` comes to its end. What its
  -- clients push is, in order: a connect event for each that could be attached; the numbers, in
  -- their order and each at most once, to those found connected; and the shutdowns of those
  -- connected after the last `Sleep`. The loop is asked to close unless it is closed already, and
  -- no client that is deleted touches the deleted loop.
  pub test_tcp_client_lem :
      ((k : ℕ) → length (print k) ≤ 255)
      → KeepsAttached sleep
      → AllOver a ecanceled (made 5 a ip i t garbage id) joined
      → test_tcp_client a print ip i t garbage sleep rest joined id l
        ≡ some (
          length (senders sleep 500 (made 5 a ip i t garbage id)),
          all_pushed print i t sleep 5 500 id (made 5 a ip i t garbage id),
          (Looper.close l).1,
        )
  unfolding test_tcp_client
  test_tcp_client_lem = test_tcp_client_with_lem 5 500

-- The bug: whatever libuv answers, the UDP client has the loop, so its destructor calls it, after
-- `TestUdpClientFunc` has deleted it.
pub end_udp_client_dangles :
    (init_code addr_code bind_code recv_code : ℤ) (id : ℕ) (rest : Looper → Looper) (l : Looper)
    → end_udp_client rest l (test_udp_client init_code addr_code bind_code recv_code id).0 ≡ none
unfolding end_udp_client test_udp_client delete_udp_client Udp.destroy Udp.close Udp.attach_looper
    Udp.bind Udp.init
end_udp_client_dangles init_code addr_code bind_code recv_code id rest l = ground arith
