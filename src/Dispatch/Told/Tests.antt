-- ===== src/Dispatch/Told/Tests.antt =====
-- Two clients come, and the first of them goes.
use test_libuv.Common.{◌+◌, ◌≤◌, ◌≡◌, ◌++◌, refl, true, false, List, [], arith, pos}
use test_libuv.PacketSync.Plain.{plain}
use test_libuv.TcpServer.{
  TcpServer, Effect, init, attach_looper, on_new_connect_cb_event, on_tcp_client_close_cb_event,
  find, insert, erase, close_found, session_handle_close, recycle,
}
use test_libuv.TcpServer.Accept.{
  accept_connection, accept_on, take_from, open_session, init_session,
}
use test_libuv.TcpServer.Maps.{IsMap, in_map, in_idle}
use test_libuv.TcpServer.Ownership.{IsSound, in_freed}
use test_libuv.TcpServer.Writes.{IsPool, AllValid}
use test_libuv.TcpSession.{after_client_close, update}
use test_libuv.TcpSession.Steps.{IsIntact}
use test_libuv.Dispatch.Shutdown.{in_keys}
use test_libuv.Dispatch.Told.{opened, ended, Reach, here, accepts, closed}
use test_libuv.Dispatch.Told.Pairs.{Reach-told}

abbrev listening : TcpServer
listening =
    on_new_connect_cb_event true
      (on_tcp_client_close_cb_event true (attach_looper (pos 0) (init 7 false 0)).1)

listening-IsIntact : IsIntact listening
unfolding IsSound IsPool AllValid init attach_looper IsMap in_map in_idle in_freed
    on_new_connect_cb_event on_tcp_client_close_cb_event
listening-IsIntact = ((λ x. ground arith, omega arith, omega arith), (tt, omega arith))

abbrev comes : TcpServer → TcpServer × List Effect
comes s = accept_connection plain (pos 0) (pos 0) (pos 0) (pos 0) s

abbrev two : TcpServer
two = (comes (comes listening).0).0

abbrev one_left : TcpServer
one_left = (after_client_close 1 two).0

abbrev seen : List Effect
seen =
    (([] ++ (comes listening).1) ++ (comes (comes listening).0).1) ++ (after_client_close 1 two).1

one_left_way : Reach plain listening one_left seen
unfolding accept_connection accept_on take_from open_session init attach_looper
    on_new_connect_cb_event on_tcp_client_close_cb_event
one_left_way = closed 1 (
    accepts (pos 0) (pos 0) (pos 0) (pos 0) (omega arith)
      (accepts (pos 0) (pos 0) (pos 0) (pos 0) (omega arith) here))

first_closed : (opened 1 seen ≡ 1) × (ended 1 seen ≡ 1) × (opened 2 seen ≡ 1) × (ended 2 seen ≡ 0)
unfolding accept_connection accept_on take_from open_session init_session insert init attach_looper
    on_new_connect_cb_event on_tcp_client_close_cb_event after_client_close session_handle_close
    close_found update find recycle erase
first_closed = (refl, refl, refl, refl)

Reach-told_example :
    (opened 1 seen ≡ ended 1 seen + in_keys 1 one_left.session_map) × (opened 1 seen ≤ 1)
unfolding init attach_looper on_new_connect_cb_event on_tcp_client_close_cb_event
Reach-told_example =
    Reach-told plain listening one_left seen listening-IsIntact refl refl refl one_left_way 1
