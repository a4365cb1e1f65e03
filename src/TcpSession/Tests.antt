-- ===== src/TcpSession/Tests.antt =====
-- A run of a server with one client, from the constructor on.
use test_libuv.Common.{false, arith, pos}
use test_libuv.PacketSync.Plain.{plain}
use test_libuv.TcpServer.{TcpServer, init, attach_looper}
use test_libuv.TcpServer.Accept.{accept_connection}
use test_libuv.TcpServer.Maps.{in_map, in_idle, IsMap}
use test_libuv.TcpServer.Ownership.{IsSound, in_freed}
use test_libuv.TcpServer.Writes.{IsPool, AllValid}
use test_libuv.TcpSession.{after_client_close, closeinl, on_session}
use test_libuv.TcpSession.Steps.{here, next, accepts, closes, closed, IsIntact, Reach-IsIntact}

abbrev fresh : TcpServer
fresh = (attach_looper (pos 0) (init 7 false 0)).1

fresh-IsIntact : IsIntact fresh
unfolding IsSound IsPool AllValid init attach_looper IsMap in_map in_idle in_freed
fresh-IsIntact = ((λ x. ground arith, omega arith, omega arith), (tt, omega arith))

abbrev first : TcpServer
first = (accept_connection plain (pos 0) (pos 0) (pos 0) (pos 0) fresh).0

abbrev last : TcpServer
last = (after_client_close 1 (on_session 1 (λ v. (closeinl v).0) first)).0

Reach-IsIntact_example : IsIntact last
Reach-IsIntact_example =
    Reach-IsIntact plain
      (next (next (next here (accepts (pos 0) (pos 0) (pos 0) (pos 0))) (closes 1)) (closed 1))
      fresh-IsIntact
