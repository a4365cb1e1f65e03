-- ===== src/Dispatch/Tests.antt =====
-- A server with two clients, and the events and walks on it.
use test_libuv.Common.{
  count, ℕ, suc, ◌+◌, ◌≡◌, refl, true, false, none, some, List, [], ◌∷◌, ◌++◌, map, arith, pos,
  negsuc,
}
use test_libuv.Event.{UvEvent, UvEventType, plain_event}
use test_libuv.PacketSync.Plain.{plain}
use test_libuv.TcpServer.{Session, TcpServer, pushes, closes_handle, init, attach_looper, find}
use test_libuv.TcpServer.Accept.{accept_connection, init_session}
use test_libuv.TcpServer
use test_libuv.TcpServer.Maps.{IsMap, in_map, in_idle}
use test_libuv.TcpServer.Ownership.{IsSound, in_freed, allocated}
use test_libuv.TcpServer.Writes.{IsPool, AllValid}
use test_libuv.TcpSession.{on_session, close, closeinl, after_client_close}
use test_libuv.TcpSession.Steps.{IsIntact, here, next, accepts, Reach-IsIntact}
use test_libuv.TcpClient
use test_libuv.Udp
use test_libuv.Dispatch.{dispatch, walk, walk_all, any_active, close_callbacks}
use test_libuv.Dispatch.NoPush.{OnlyCalls, ClientOnlyCalls, UdpOnlyCalls, Holds, do_event-OnlyCalls}
use test_libuv.Dispatch.Unclosed.{refused_accept_dangles}
use test_libuv.Dispatch.Dangling.{close_again_dangles}
use test_libuv.Looper.{Looper}
use test_libuv.Dispatch.Shutdown.{in_keys, open_handles, told_of, walk-close_callbacks}

abbrev attached : TcpServer
attached = (attach_looper (pos 0) (init 7 false 0)).1

abbrev one_client : TcpServer
one_client = (accept_connection plain (pos 0) (pos 0) (pos 0) (pos 0) attached).0

abbrev two_clients : TcpServer
two_clients = (accept_connection plain (pos 0) (pos 0) (pos 0) (pos 0) one_client).0

attached-IsIntact : IsIntact attached
unfolding IsSound IsPool AllValid init attach_looper IsMap in_map in_idle in_freed
attached-IsIntact = ((λ x. ground arith, omega arith, omega arith), (tt, omega arith))

two_clients-IsIntact : IsIntact two_clients
two_clients-IsIntact =
    Reach-IsIntact plain
      (next (next here (accepts (pos 0) (pos 0) (pos 0) (pos 0)))
        (accepts (pos 0) (pos 0) (pos 0) (pos 0)))
      attached-IsIntact

no_idle : any_active two_clients.idle ≡ false
unfolding any_active accept_connection init attach_looper TcpServer.insert
no_idle = refl

both_once : (x : ℕ) → count x (2 ∷ 1 ∷ []) ≡ in_keys x two_clients.session_map
unfolding count in_keys accept_connection init attach_looper TcpServer.insert
both_once x = omega arith

second_found :
    (v : Session) × (find 2 two_clients.session_map ≡ some v)
    × (v.is_closed ≡ false)
    × (v.looper ≡ true)
unfolding find accept_connection init attach_looper init_session TcpServer.insert
second_found = (_, refl, refl, refl)

walk-close_callbacks_example :
    let (s1, es) = walk false two_clients in
    let (s2, more) = close_callbacks (2 ∷ 1 ∷ []) s1 in
    (walk_all false two_clients ≡ some (s1, es))
    × (es
        ≡ TcpServer.on_handle_close false
          ++ map closes_handle (open_handles two_clients.session_map))
    × ((again : TcpServer) × (walk_all true s1 ≡ some (again, [])))
    × (s2.session_map ≡ [])
    × (more ≡ told_of two_clients.has_close_cb (2 ∷ 1 ∷ []))
    × ((x : ℕ) → in_idle x s2.idle + in_freed x s2.freed ≡ allocated x s2)
    × ((x : ℕ) → in_freed x (TcpServer.destroy s2).0.freed ≡ allocated x s2)
walk-close_callbacks_example =
    walk-close_callbacks false (2 ∷ 1 ∷ []) two_clients two_clients-IsIntact no_idle both_once

close_again_dangles_example :
    let e = plain_event UvEventType.close 2 in
    let v = second_found.0 in
    let s1 = on_session 2 (λ w. (closeinl w).0) two_clients in
    (dispatch plain (λ x. pos 0) e two_clients ≡ some (s1, (closeinl v).1))
    × (find 2 s1.session_map ≡ some (closeinl v).0)
    × (close (closeinl v).0 ≡ pushes e ∷ [])
    × (dispatch plain (λ x. pos 0) e (after_client_close 2 s1).0 ≡ none)
unfolding IsSound
close_again_dangles_example =
    close_again_dangles plain (λ x. pos 0) (suc two_clients.last_id) 2 second_found.0 two_clients
      two_clients-IsIntact.0.1 second_found.1 second_found.2 second_found.3

abbrev to_all : UvEvent
to_all = record (plain_event UvEventType.broadcast 0) { buff = some (65 ∷ 66 ∷ []); size = 2 }

do_event-OnlyCalls_example :
    let c = (TcpClient.init plain 1 7 false).0 in
    Holds (λ r. OnlyCalls r.1) (dispatch plain (λ x. pos 0) to_all two_clients)
    × Holds (λ r. ClientOnlyCalls r.1) (TcpClient.do_event (pos 0) (pos 0) to_all c)
    × Holds UdpOnlyCalls (Udp.do_event plain to_all (Udp.init 0))
do_event-OnlyCalls_example =
    do_event-OnlyCalls plain (λ x. pos 0) (pos 0) (pos 0) to_all two_clients
      (TcpClient.init plain 1 7 false).0 (Udp.init 0)

-- `uv_accept` refuses the third client, and the two sessions are closed then.
refused_accept_dangles_example :
    let (s', es) = accept_connection plain (pos 0) (pos 0) (negsuc 23) (pos 0) two_clients in
    (s'.session_map ≡ two_clients.session_map)
    × (es ≡ [])
    × (walk_all false (close_callbacks (2 ∷ 1 ∷ []) s').0 ≡ none)
refused_accept_dangles_example =
    refused_accept_dangles plain (negsuc 23) (pos 0) (2 ∷ 1 ∷ []) false two_clients refl

-- A broadcast, the end of the second session, and a broadcast that leaves out the first.
abbrev three_events : List UvEvent
three_events =
    to_all
    ∷ plain_event UvEventType.close 2
    ∷ record (plain_event UvEventType.broadcast 0) {
      buff = some (67 ∷ []);
      size = 1;
      list = 1 ∷ [];
    }
    ∷ []

abbrev loop : Looper
loop = record { event_queue = three_events; is_closed = false; inited = true; last_error = none }

-- What the user sends besides: to all but the first, and to all but the second.
abbrev more_calls : List (List ℕ × List ℕ)
more_calls = (68 ∷ [], 1 ∷ []) ∷ (69 ∷ [], 2 ∷ []) ∷ []
