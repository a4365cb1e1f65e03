-- ===== src/TcpClient/Close.antt =====
-- `CTcpClient`: time-outs, closing, and connecting again.
use test_libuv.Common.{
  ℕ, ◌≡◌, refl, ◌⊎◌, Bool, true, false, List, [], ◌∷◌, ◌++◌, arith, ℤ, is_zero, some,
}
use test_libuv.Event.{UvEventType, plain_event}
use test_libuv.PacketSync.{Allocator}
use test_libuv.TcpClient.{
  TcpClient, status_none, connecting, connect_time_out, time_out_text, pushes, connects, calls_conn,
  calls_close, closes, tcp, timer, Run, connect, send, close, shutdown, connectinl, closeinl, init,
  is_open,
}
use test_libuv.TcpClient.Callbacks.{connect_time_out_cb, after_connect, after_handle_close, calls}
use test_libuv.TcpClient.Steps.{Reach, Reach-closing, quiet}

-- One thing after another, and all that both have done.
infixl 5 ◌then_run◌
abbrev pub ◌then_run◌ : Run → (TcpClient → Run) → Run
r then_run f = ((f r.0).0, r.1 ++ (f r.0).1)

-- A time-out of a connection under way, the cancelled connection that libuv then reports, and the
-- close of the handle: both handles are closed once; the user is told of the time-out once and of
-- no other result, then of the close; and the object can be connected again.
pub time_out_once :
    (c : TcpClient) (ecanceled read_code : ℤ)
    → c.status ≡ connecting
    → c.tcp_closing ≡ false
    → c.is_wait_closed ≡ false
    → let (c', es) =
        connect_time_out_cb c
        then_run after_connect ecanceled ecanceled read_code
        then_run after_handle_close quiet tcp in
      (c'.status ≡ status_none)
      × (c'.is_wait_closed ≡ false)
      × (c'.errmsg ≡ time_out_text)
      × (es
          ≡ closes tcp
            ∷ closes timer
            ∷ (calls c.has_conn_cb (calls_conn connect_time_out)
                ++ calls c.has_close_cb (calls_close c.client_id)))
unfolding connect_time_out_cb after_connect after_handle_close
time_out_once c ecanceled read_code h k w = ground arith

-- Two close events in a row on an object that is connected or connecting, and the close callback:
-- the handle is closed once, the user is told once, and the object is back where it can connect.
pub close_twice :
    (c : TcpClient)
    → is_open c ≡ true
    → c.is_wait_closed ≡ false
    → c.tcp_closing ≡ false
    → let (c', es) = closeinl c then_run closeinl then_run after_handle_close quiet tcp in
      (c'.status ≡ status_none)
      × (c'.is_wait_closed ≡ false)
      × (es ≡ closes tcp ∷ calls c.has_close_cb (calls_close c.client_id))
unfolding closeinl after_handle_close
close_twice c h w k = ground arith

-- Before `AttachLooper`, the methods of a new object do not look at the pointer to the loop, which
-- is not set: whatever stands there, they do nothing, and `Connect` and `Send` refuse.
pub fresh_refuses :
    (a : Allocator) (next_id packhead : ℕ) (garbage : Bool) (ip bytes : List ℕ)
    (port time_out size : ℕ) (v6 : Bool)
    → let c = (init a next_id packhead garbage).0 in
      (connect ip port time_out v6 c ≡ (false, (c, [])))
      × (send bytes size c ≡ some (0, (c, [])))
      × (close c ≡ (c, []))
      × (shutdown c ≡ (c, []))
unfolding init connect send close shutdown
fresh_refuses a next_id packhead garbage ip bytes port time_out size v6 = (refl, refl, refl, refl)

-- The bug: if the address cannot be read or `uv_tcp_connect` fails, the connect event leaves the
-- object connecting, tells the user nothing and starts no timer; and a `Connect` on the object as it
-- is then is refused and changes nothing.
pub connectinl_stuck :
    (c : TcpClient) (addr_code connect_code : ℤ) (ip : List ℕ) (port time_out : ℕ) (v6 : Bool)
    → c.status ≡ connecting
    → (is_zero addr_code ≡ false) ⊎ (is_zero connect_code ≡ false)
    → let (c', es) = connectinl addr_code connect_code c in
      (c'.status ≡ connecting)
      × ((es ≡ []) ⊎ (es ≡ connects c.is_ipv6 ∷ []))
      × (connect ip port time_out v6 c' ≡ (false, (c', [])))
unfolding connectinl connect
connectinl_stuck c addr_code connect_code ip port time_out v6 h failed = ground arith

-- The bug: once the close of the handle has been reported, `Connect` says yes and pushes its event,
-- although the handle is closed; and it stays closed whatever methods and callbacks of the object,
-- other than `AttachLooper`, run then.
pub reconnect_on_closed :
    (a : Allocator) (ecanceled : ℤ) (c d : TcpClient) (ip : List ℕ) (port time_out : ℕ) (v6 : Bool)
    → c.looper ≡ true
    → c.tcp_closing ≡ true
    → let closed = (after_handle_close quiet tcp c).0 in
      let again = connect ip port time_out v6 closed in
      Reach a ecanceled again.1.0 d
      → (again.0 ≡ true)
        × (again.1.0.status ≡ connecting)
        × (again.1.1 ≡ pushes (plain_event UvEventType.connect c.client_id) ∷ [])
        × (d.tcp_closing ≡ true)
unfolding connect after_handle_close
reconnect_on_closed a ecanceled c d ip port time_out v6 attached closing r =
    (ground arith, ground arith, ground arith, Reach-closing a ecanceled r (ground arith))
