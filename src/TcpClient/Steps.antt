-- ===== src/TcpClient/Steps.antt =====
-- What can happen to a `CTcpClient` that is attached to a loop: the methods that change it, its
-- events on the thread of the loop and the callbacks of libuv, in any order. A step is one whole
-- method or callback. Of libuv: no timer fires and no read ends in an error on a handle that is
-- closing, and a close callback comes only for a handle that is closing. The user's close callback
-- calls no method of the object.
use test_libuv.Common.{ℕ, ◌≡◌, Bool, true, false, List, [], arith, ℤ, pos}
use test_libuv.PacketSync.{Allocator, done}
use test_libuv.TcpClient.{
  TcpClient, connected, connect_time_out, Handle, tcp, timer, Effect, Run, init, attach_looper,
  connect, connectinl, closeinl, on_handle_close,
}
use test_libuv.TcpClient.Callbacks.{
  connect_time_out_cb, after_connect, after_recv_error, after_recv_data, after_shut_down,
  after_handle_close,
}

abbrev pub quiet : TcpClient → Run
quiet c = (c, [])

module _ (a : Allocator) (ecanceled : ℤ) where
  pub data Step : TcpClient → TcpClient → Type 0 where
    connects :
        (c : TcpClient) (ip : List ℕ) (port time_out : ℕ) (v6 : Bool)
        → Step c (connect ip port time_out v6 c).1.0
    connect_event :
        (c : TcpClient) (addr_code connect_code : ℤ)
        → Step c (connectinl addr_code connect_code c).0
    close_event : (c : TcpClient) → Step c (closeinl c).0
    timer_fires : (c : TcpClient) → c.timer_closing ≡ false → Step c (connect_time_out_cb c).0
    connection_ends :
        (c : TcpClient) (code read_code : ℤ) → Step c (after_connect ecanceled code read_code c).0
    read_fails :
        (c : TcpClient) (code : ℤ) → c.tcp_closing ≡ false → Step c (after_recv_error code c).0
    read_ends :
        {d : TcpClient} {es : List Effect} (c : TcpClient) (fuel : ℕ) (buf : List ℕ) (nread : ℕ)
        → after_recv_data a fuel buf nread c ≡ done (d, es)
        → Step c d
    shut_down : (c : TcpClient) → Step c (after_shut_down c).0
    loop_closes : (c : TcpClient) (h : Handle) → Step c (on_handle_close h c).0
    tcp_closed : (c : TcpClient) → c.tcp_closing ≡ true → Step c (after_handle_close quiet tcp c).0
    timer_closed :
        (c : TcpClient) → c.timer_closing ≡ true → Step c (after_handle_close quiet timer c).0

  pub data Reach (c : TcpClient) : TcpClient → Type 0 where
    here : Reach c c
    next : {d e : TcpClient} → Reach c d → Step d e → Reach c e

-- While connected the connection timer is closing, so it cannot fire; a time-out has closed both
-- handles; a close that is awaited is under way.
pub record IsSafe (c : TcpClient) : Type 0 where
  pub no_timer : c.status ≡ connected → c.timer_closing ≡ true
  pub timed_out : c.status ≡ connect_time_out → (c.tcp_closing ≡ true) × (c.timer_closing ≡ true)
  pub awaited : c.is_wait_closed ≡ true → c.tcp_closing ≡ true

-- What a chunk of data leaves alone.
pub recv_keeps :
    (a : Allocator) (fuel : ℕ) (buf : List ℕ) (nread : ℕ) (c : TcpClient) {d : TcpClient}
    {es : List Effect}
    → after_recv_data a fuel buf nread c ≡ done (d, es)
    → (d.status ≡ c.status)
      × (d.is_wait_closed ≡ c.is_wait_closed)
      × (d.tcp_closing ≡ c.tcp_closing)
      × (d.timer_closing ≡ c.timer_closing)
unfolding after_recv_data
recv_keeps a fuel buf nread c e = ground arith

pub Step-IsSafe :
    (a : Allocator) (ecanceled : ℤ) {c d : TcpClient} → Step a ecanceled c d → IsSafe c → IsSafe d
unfolding connect connectinl closeinl connect_time_out_cb after_connect after_recv_error
    after_shut_down on_handle_close after_handle_close
Step-IsSafe a ecanceled (connects c ip port time_out v6) s = ground arith
Step-IsSafe a ecanceled (connect_event c addr_code connect_code) s = ground arith
Step-IsSafe a ecanceled (close_event c) s = ground arith
Step-IsSafe a ecanceled (timer_fires c h) s = ground arith
Step-IsSafe a ecanceled (connection_ends c code read_code) s = ground arith
Step-IsSafe a ecanceled (read_fails c code h) s = ground arith
Step-IsSafe a ecanceled (read_ends c fuel buf nread e) s =
    ground (arith, recv_keeps a fuel buf nread c e)
Step-IsSafe a ecanceled (shut_down c) s = ground arith
Step-IsSafe a ecanceled (loop_closes c tcp) s = ground arith
Step-IsSafe a ecanceled (loop_closes c timer) s = ground arith
Step-IsSafe a ecanceled (tcp_closed c h) s = ground arith
Step-IsSafe a ecanceled (timer_closed c h) s = ground arith

-- In every state that an object which `AttachLooper` has attached for the first time can come to:
-- while it is connected its connection timer is closing, so no time-out can be reported any more;
-- after a time-out both handles are closing; and a close is awaited only of a handle that is closing.
pub Reach-IsSafe :
    (a : Allocator) (ecanceled : ℤ) (next_id packhead : ℕ) (garbage : Bool) (d : TcpClient)
    → Reach a ecanceled (attach_looper (pos 0) (pos 0) (init a next_id packhead garbage).0).1 d
    → IsSafe d
unfolding init attach_looper
Reach-IsSafe a ecanceled next_id packhead garbage d r = go r
  where
    go :
        {e : TcpClient}
        → Reach a ecanceled (attach_looper (pos 0) (pos 0) (init a next_id packhead garbage).0).1 e
        → IsSafe e
    go here = ground arith
    go (next r st) = Step-IsSafe a ecanceled st (go r)

Step-closing :
    (a : Allocator) (ecanceled : ℤ) {c d : TcpClient}
    → Step a ecanceled c d
    → c.tcp_closing ≡ true
    → d.tcp_closing ≡ true
unfolding connect connectinl closeinl connect_time_out_cb after_connect after_recv_error
    after_shut_down on_handle_close after_handle_close
Step-closing a ecanceled (connects c ip port time_out v6) s = ground arith
Step-closing a ecanceled (connect_event c addr_code connect_code) s = ground arith
Step-closing a ecanceled (close_event c) s = ground arith
Step-closing a ecanceled (timer_fires c h) s = ground arith
Step-closing a ecanceled (connection_ends c code read_code) s = ground arith
Step-closing a ecanceled (read_fails c code h) s = ground arith
Step-closing a ecanceled (read_ends c fuel buf nread e) s =
    ground (arith, recv_keeps a fuel buf nread c e)
Step-closing a ecanceled (shut_down c) s = ground arith
Step-closing a ecanceled (loop_closes c tcp) s = ground arith
Step-closing a ecanceled (loop_closes c timer) s = ground arith
Step-closing a ecanceled (tcp_closed c h) s = ground arith
Step-closing a ecanceled (timer_closed c h) s = ground arith

pub Reach-closing :
    (a : Allocator) (ecanceled : ℤ) {c d : TcpClient}
    → Reach a ecanceled c d
    → c.tcp_closing ≡ true
    → d.tcp_closing ≡ true
Reach-closing a ecanceled here h = h
Reach-closing a ecanceled (next r st) h =
    Step-closing a ecanceled st (Reach-closing a ecanceled r h)
