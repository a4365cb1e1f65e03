-- ===== src/TcpClient/Answers/Tests.antt =====
-- A connection that is asked for, started and timed out, and that libuv then reports as cancelled.
-- `UV_ECANCELED` is -4081 here.
use test_libuv.Common.{◌+◌, ◌≤◌, ◌≡◌, refl, true, false, [], arith, ℤ, pos, negsuc, if◌then◌else◌}
use test_libuv.PacketSync.Plain.{plain}
use test_libuv.TcpClient.{
  connect, connectinl, init, attach_looper, on_connect_cb_event, is_time_out,
}
use test_libuv.TcpClient.Callbacks.{connect_time_out_cb, after_connect}
use test_libuv.TcpClient.Answers.{
  Watched, asked, started, then_is, ended, attached, Reach, here, next, sets_callback, connects,
  connect_event, timer_fires, connection_ends,
}
use test_libuv.TcpClient.Answers.Once.{Reach-answered_once}

abbrev canceled : ℤ
canceled = negsuc 4080

abbrev watched : Watched
watched = attached plain canceled 1000 7 false

abbrev asked_once : Watched
asked_once =
    let w = record watched { client = on_connect_cb_event true watched.client } in
    asked (connect [] 6666 30 false w.client) w

abbrev under_way : Watched
under_way = started (pos 0) (pos 0) asked_once

abbrev told : Watched
told = then_is under_way (connect_time_out_cb under_way.client)

abbrev cancelled : Watched
cancelled = ended canceled canceled (pos 0) told

cancelled_way : Reach plain canceled watched cancelled
unfolding connect init attach_looper connectinl connect_time_out_cb on_connect_cb_event
cancelled_way =
    next
      (next
        (next (next (next here (sets_callback true)) (connects [] 6666 30 false))
          (connect_event (pos 0) (pos 0) (omega arith)))
        (timer_fires refl refl))
      (connection_ends canceled (pos 0) (omega arith) (λ h. refl))

told_once : (cancelled.answers ≡ 1) × (cancelled.requests ≡ 1) × (cancelled.pending ≡ 0)
unfolding connect init attach_looper on_connect_cb_event connectinl connect_time_out_cb
    after_connect
told_once = (omega arith, omega arith, omega arith)

Reach-answered_once_example :
    cancelled.answers
      + (cancelled.queued + (if is_time_out cancelled.client.status then 0 else cancelled.pending))
    ≤ cancelled.requests
Reach-answered_once_example =
    Reach-answered_once plain canceled 1000 7 false cancelled cancelled_way
