-- ===== src/TcpClient/Tests.antt =====
-- Runs of `CTcpClient`, and its theorems at them. `UV_ECANCELED` is -4081 here.
use test_libuv.Common.{◌≡◌, refl, ◌⊎◌, inl, Bool, true, false, [], ◌∷◌, ℤ, pos, negsuc}
use test_libuv.Event.{UvEventType, plain_event}
use test_libuv.PacketSync.Plain.{plain}
use test_libuv.TcpClient.{
  TcpClient, TcpStatus, status_none, connecting, connect_time_out, time_out_text, no_error, pushes,
  connects, calls_conn, calls_close, closes, tcp, timer, connect, connectinl, init, attach_looper,
}
use test_libuv.TcpClient.Callbacks.{connect_time_out_cb, after_connect, after_handle_close}
use test_libuv.TcpClient.Steps.{here, next, connects as step_connects, IsSafe, Reach-IsSafe, quiet}
use test_libuv.TcpClient.Close.{◌then_run◌, time_out_once, connectinl_stuck, reconnect_on_closed}

abbrev canceled : ℤ
canceled = negsuc 4080

-- An attached object of id 1000 with all callbacks.
abbrev client : TcpStatus → Bool → TcpClient
client status closing = record {
  client_id = 1000;
  packet_head = 7;
  status = status;
  is_wait_closed = false;
  is_ipv6 = false;
  conn_time_out = 30;
  connect_ip = [];
  connect_port = 0;
  errmsg = no_error;
  looper = true;
  tcp_closing = closing;
  timer_closing = false;
  packet = record { base = []; len = 0; real_packet_len = 0; head = 7; has_callback = true };
  has_conn_cb = true;
  has_recv_cb = true;
  has_close_cb = true;
}

Reach-IsSafe_example :
    IsSafe
      (connect
        (49 ∷ [])
        6666
        30
        false
        (attach_looper (pos 0) (pos 0) (init plain 1000 7 true).0).1).1.0
Reach-IsSafe_example =
    Reach-IsSafe plain canceled 1000 7 true _ (next here (step_connects _ (49 ∷ []) 6666 30 false))

time_out_once_example :
    let (c', es) =
      connect_time_out_cb (client connecting false)
      then_run after_connect canceled canceled (pos 0)
      then_run after_handle_close quiet tcp in
    (c'.status ≡ status_none)
    × (c'.is_wait_closed ≡ false)
    × (c'.errmsg ≡ time_out_text)
    × (es ≡ closes tcp ∷ closes timer ∷ calls_conn connect_time_out ∷ calls_close 1000 ∷ [])
time_out_once_example = time_out_once (client connecting false) canceled (pos 0) refl refl refl

connectinl_stuck_example :
    let (c', es) = connectinl (negsuc 21) (pos 0) (client connecting false) in
    (c'.status ≡ connecting)
    × ((es ≡ []) ⊎ (es ≡ connects false ∷ []))
    × (connect [] 6666 30 false c' ≡ (false, (c', [])))
connectinl_stuck_example =
    connectinl_stuck (client connecting false) (negsuc 21) (pos 0) [] 6666 30 false refl (inl refl)

reconnect_on_closed_example :
    let closed = (after_handle_close quiet tcp (client status_none true)).0 in
    let again = connect [] 6666 30 false closed in
    (again.0 ≡ true)
    × (again.1.0.status ≡ connecting)
    × (again.1.1 ≡ pushes (plain_event UvEventType.connect 1000) ∷ [])
    × (again.1.0.tcp_closing ≡ true)
reconnect_on_closed_example =
    reconnect_on_closed plain canceled (client status_none true) _ [] 6666 30 false refl refl here
