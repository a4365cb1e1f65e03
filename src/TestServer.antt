-- ===== src/TestServer.antt =====
-- The demonstration servers of TestServer/TestServer.cpp: how `TestTcpSvrFunc` and `TestUdpSvrFunc`
-- set up their object, and the callbacks that send each packet or datagram back. The session on which the
-- former calls `Send` is that of `TcpSession`; the log lines and the loop that sleeps are left out.
pub mod Echo
pub mod Setup
pub mod End
mod Tests
use test_libuv.Common.{
  ℕ, ◌+◌, ◌%◌, ◌^◌, Bool, true, false, List, [], ◌∷◌, Option, replicate, copy, length, ◌>>=◌, ℤ,
  pos, none, some, if◌then◌else◌,
}
use test_libuv.Packet.{head_len, def_pack_head_flag}
use test_libuv.Packet.Words.{load_word}
use test_libuv.Looper.{Looper}
use test_libuv.Looper
use test_libuv.PacketSync.{Outcome, done, fault, unfinished}
use test_libuv.TcpServer.{
  destroy, TcpServer, init, attach_looper, start, set_option, on_new_connect_cb_event,
  on_tcp_client_close_cb_event, on_tcp_client_recv_cb_event,
}
use test_libuv.Udp.{Udp}
use test_libuv.Udp

-- The size of `szRecvData`, which is on the stack.
abbrev pub recv_size : ℕ
recv_size = 1024

-- The callback of `OnTcpClientRecvCBEvent`, on the bytes of the packet and the array `szRecvData`:
-- what it sends back. The copy into the array has no test of the size.
pub reply : List ℕ → List ℕ → Option (List ℕ)
reply array pack = do
  data_size ← load_word pack 8
  received ← copy array 0 pack head_len data_size
  let pack_size = (data_size + head_len) % 2 ^ 32
  buffer ← copy (replicate pack_size 0) 0 pack 0 head_len
  copy buffer head_len pack head_len data_size

pub on_client_recv : List ℕ → Option (List ℕ)
unfolding reply
on_client_recv pack = reply (replicate recv_size 0) pack

-- `TestTcpSvrFunc` up to its loop, by the codes of libuv: what `AttachLooper`, `Start` and
-- `SetKeepAlive` answer is at most logged.
unfoldable pub test_tcp_svr : ℤ → ℤ → ℤ → ℤ → ℤ → List ℕ → Bool → ℕ → TcpServer
test_tcp_svr init_code addr_code bind_code listen_code keep_code ip garbage last_id =
    let (attached, s) = attach_looper init_code (init def_pack_head_flag garbage last_id) in
    let s1 = on_new_connect_cb_event true s in
    let s2 = on_tcp_client_close_cb_event true s1 in
    let s3 = on_tcp_client_recv_cb_event true s2 in
    let (started, s4) = start addr_code bind_code listen_code ip 6666 s3 in
    let (kept, s5) = set_option keep_code s4 in s5

-- `TestUdpSvrFunc` up to its loop.
unfoldable pub test_udp_svr : ℤ → ℤ → ℤ → ℤ → ℕ → Udp × List Udp.Effect
test_udp_svr init_code addr_code bind_code recv_code id =
    let (attached, u) = Udp.attach_looper init_code (Udp.init id) in
    let (bound, u1, es) = Udp.bind addr_code bind_code recv_code (pos 6666) false u in
    (record u1 { has_recv_cb = true }, es)

-- Its callback of `OnRecvCBEvent`, on the datagram and the address it came from. Neither has the copy
-- into `szRecvData` here a test of the size.
unfoldable pub on_udp_recv : (ℕ → ℕ) → List ℕ → ℕ → Udp → Option (ℕ × List Udp.Effect)
on_udp_recv trunc buffer addr u = do
  received ← copy (replicate recv_size 0) 0 buffer 0 (length buffer)
  Udp.send_to trunc buffer (length buffer) addr u

-- The end of `TestTcpSvrFunc`: when `SetConsoleCtrlHandler` has installed the handler, the main thread sleeps
-- forever; if not, it deletes the loop, and then the server leaves its scope. A call of the loop in the
-- destructor of the server is a fault.
unfoldable pub delete_tcp_svr : TcpServer → Option (Unit {0})
delete_tcp_svr s = elim (destroy s).1 [ [] ↦ some tt | e ∷ es ↦ none ]

unfoldable pub end_tcp_svr :
    Bool → (Looper → Looper) → Looper → TcpServer → Outcome (List Looper.Effect)
unfolding delete_tcp_svr
end_tcp_svr installed rest l s =
    if installed
    then unfinished
    else let (l', closes) = Looper.destroy rest l in
      elim (delete_tcp_svr s) [ none ↦ fault | some done_with ↦ done closes ]

-- The end of `TestUdpSvrFunc`, which leaves the object as it is.
unfoldable pub end_udp_svr : Bool → (Looper → Looper) → Looper → Outcome (List Looper.Effect)
end_udp_svr installed rest l =
    if installed then unfinished else (let (l', closes) = Looper.destroy rest l in done closes)
