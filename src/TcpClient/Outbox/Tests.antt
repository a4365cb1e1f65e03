-- ===== src/TcpClient/Outbox/Tests.antt =====
-- Two messages, of which the first is written.
use test_libuv.Common.{
  ℕ, ◌≡◌, refl, true, false, none, some, List, [], ◌∷◌, ◌++◌, arith, ℤ, pos, ◌≤◌, length,
}
use test_libuv.Event.{UvEvent, UvEventType, plain_event}
use test_libuv.Looper.{Looper, handle_all, push_event}
use test_libuv.Looper
use test_libuv.TcpClient.{TcpClient, send, do_event, sendinl, connected, no_error}
use test_libuv.TcpClient.Outbox.{
  handle, written, takes, accepts, System, pending, sent, woken, sends, wakes, Reach, here, next,
  quiet,
}
use test_libuv.TcpClient.Outbox.Order.{Reach-sent_in_order}

abbrev client : TcpClient
client = record {
  client_id = 1000;
  packet_head = 7;
  status = connected;
  is_wait_closed = false;
  is_ipv6 = false;
  conn_time_out = 30;
  connect_ip = [];
  connect_port = 6666;
  errmsg = no_error;
  looper = true;
  tcp_closing = false;
  timer_closing = true;
  packet = record { base = []; len = 0; real_packet_len = 0; head = 7; has_callback = true };
  has_conn_cb = true;
  has_recv_cb = true;
  has_close_cb = true;
}

abbrev loop : Looper
loop = record { event_queue = []; is_closed = false; inited = true; last_error = none }

abbrev write_event : List ℕ → UvEvent
write_event bytes = record (plain_event UvEventType.write 1000) {
  buff = some bytes;
  size = length bytes;
}

abbrev code : UvEvent → ℤ
code e = pos 0

abbrev after_one : System
after_one = record {
  client = client;
  looper = record loop { event_queue = write_event (1 ∷ 2 ∷ []) ∷ [] };
  accepted = (1 ∷ 2 ∷ []) ∷ [];
  wrote = [];
}

abbrev after_wake : System
after_wake = record after_one { looper = loop; wrote = (1 ∷ 2 ∷ []) ∷ [] }

abbrev after_two : System
after_two = record {
  client = client;
  looper = record loop { event_queue = write_event (3 ∷ []) ∷ [] };
  accepted = (1 ∷ 2 ∷ []) ∷ (3 ∷ []) ∷ [];
  wrote = (1 ∷ 2 ∷ []) ∷ [];
}

two_sent : Reach (quiet client loop) after_two
unfolding sent woken takes accepts send do_event handle_all Looper.do_event test_libuv.Common.slice
    push_event handle written sendinl
two_sent =
    next
      (next (next here (sends {t = after_one} (1 ∷ 2 ∷ []) 2 (omega arith) refl))
        (wakes {t = after_wake} code code refl))
      (sends (3 ∷ []) 1 (omega arith) refl)

Reach-sent_in_order_example :
    (after_two.accepted ≡ ((1 ∷ 2 ∷ []) ∷ []) ++ pending after_two.looper.event_queue)
    × ((t : System) × (woken code code after_two ≡ some t)
        × (t.wrote ≡ (1 ∷ 2 ∷ []) ∷ (3 ∷ []) ∷ [])
        × (t.looper.event_queue ≡ []))
Reach-sent_in_order_example = Reach-sent_in_order client loop code code two_sent
