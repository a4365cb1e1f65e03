-- ===== src/TestServer/End.antt =====
-- What the demonstration server of TestServer/TestServer.cpp does last.
use test_libuv.Common.{ℕ, ◌≡◌, refl, ◌∙◌, Bool, true, false, none, List, arith, ℤ}
use test_libuv.Looper.{Looper}
use test_libuv.PacketSync.{Allocator, fault}
use test_libuv.TcpServer.{TcpServer, close, destroy}
use test_libuv.TcpSession.Steps.{Reach}
use test_libuv.TcpSession.Settings.{Reach-Same}
use test_libuv.TestServer.Setup.{test_tcp_svr_lem}
use test_libuv.TestServer.{test_tcp_svr, delete_tcp_svr, end_tcp_svr}

delete_tcp_svr_fault : (s : TcpServer) → s.looper ≡ true → delete_tcp_svr s ≡ none
unfolding delete_tcp_svr destroy close
delete_tcp_svr_fault s h = ground arith

-- The bug: whatever libuv has answered when the server was set up, and whatever has happened to it since,
-- the server still has its loop; so if no handler could be installed, its destructor calls the loop that the
-- function has deleted before.
pub end_tcp_svr_dangles :
    (a : Allocator) (init_code addr_code bind_code listen_code keep_code : ℤ) (ip : List ℕ)
    (garbage : Bool) (last_id : ℕ) (rest : Looper → Looper) (l : Looper) (s : TcpServer)
    → Reach a
        (test_tcp_svr init_code addr_code bind_code listen_code keep_code ip garbage last_id)
        s
    → end_tcp_svr false rest l s ≡ fault
unfolding end_tcp_svr
end_tcp_svr_dangles a i d b n k ip garbage last_id rest l s r =
    let (intact, head, attached, cb, live) = test_tcp_svr_lem i d b n k ip garbage last_id in
    rw (delete_tcp_svr_fault s ((Reach-Same a r intact).0 ∙ attached)) refl
