-- ===== src/TcpClient/Life.antt =====
-- A `CTcpClient` to the end of its handle: what can still happen to the object once libuv has made its last
-- call for the TCP handle, the close callback. No connection and no read ends after it.
use test_libuv.Common.{◌≡◌, refl, Bool, true, false, [], arith, ℤ}
use test_libuv.PacketSync.{Allocator}
use test_libuv.TcpClient.{
  TcpClient, Handle, tcp, timer, is_open, destroy, close, connectinl, closeinl, on_handle_close,
}
use test_libuv.TcpClient.Callbacks.{connect_time_out_cb, after_shut_down, after_handle_close}
use test_libuv.TcpClient.Steps.{Step, quiet}

-- What can come after the last close callback, as long as nobody calls `Connect`.
pub data Late : TcpClient → TcpClient → Type 0 where
  connect_event :
      (c : TcpClient) (addr_code connect_code : ℤ) → Late c (connectinl addr_code connect_code c).0
  close_event : (c : TcpClient) → Late c (closeinl c).0
  timer_fires : (c : TcpClient) → c.timer_closing ≡ false → Late c (connect_time_out_cb c).0
  shut_down : (c : TcpClient) → Late c (after_shut_down c).0
  loop_closes : (c : TcpClient) (h : Handle) → Late c (on_handle_close h c).0
  timer_closed :
      (c : TcpClient) → c.timer_closing ≡ true → Late c (after_handle_close quiet timer c).0

module _ (a : Allocator) (ecanceled : ℤ) where
  -- An object, and whether the last close callback of its TCP handle has come; and so for what
  -- becomes of it.
  pub data Life (c : TcpClient) (over : Bool) : TcpClient → Bool → Type 0 where
    here : Life c over c over
    steps : {d e : TcpClient} → Life c over d false → Step a ecanceled d e → Life c over e false
    ends :
        {d : TcpClient}
        → Life c over d false
        → d.tcp_closing ≡ true
        → Life c over (after_handle_close quiet tcp d).0 true
    late : {d e : TcpClient} → Life c over d true → Late d e → Life c over e true

  pub Life-trans :
      {c d : TcpClient} {i j : Bool} {e : TcpClient} {k : Bool}
      → Life c i d j
      → Life d j e k
      → Life c i e k
  Life-trans l here = l
  Life-trans l (steps m s) = steps (Life-trans l m) s
  Life-trans l (ends m h) = ends (Life-trans l m) h
  Life-trans l (late m s) = late (Life-trans l m) s

  Late-is_open : {c d : TcpClient} → Late c d → is_open c ≡ false → is_open d ≡ false
  unfolding connectinl closeinl connect_time_out_cb after_shut_down on_handle_close
      after_handle_close
  Late-is_open (connect_event c addr_code connect_code) h = ground arith
  Late-is_open (close_event c) h = ground arith
  Late-is_open (timer_fires c t) h = ground arith
  Late-is_open (shut_down c) h = ground arith
  Late-is_open (loop_closes c tcp) h = ground arith
  Late-is_open (loop_closes c timer) h = ground arith
  Late-is_open (timer_closed c t) h = ground arith

  -- After the last close callback the object is neither connected nor connecting.
  Life-is_open : {c d : TcpClient} → Life c false d true → is_open d ≡ false
  unfolding after_handle_close
  Life-is_open (ends l h) = ground arith
  Life-is_open (late l s) = Late-is_open s (Life-is_open l)

  pub Life-destroy : {c d : TcpClient} → Life c false d true → destroy d ≡ (d, [])
  unfolding destroy close
  Life-destroy {c} {d} l = rw (Life-is_open l) refl
