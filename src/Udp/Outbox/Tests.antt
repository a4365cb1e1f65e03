-- ===== src/Udp/Outbox/Tests.antt =====
-- Two datagrams, of which the first is handed over.
use test_libuv.Common.{
  ℕ, ◌≡◌, refl, true, false, none, some, List, [], ◌∷◌, ◌++◌, arith, length, slice, copy,
}
use test_libuv.Event.{UvEvent, UvEventType, plain_event, create_uv_event}
use test_libuv.PacketSync.Plain.{plain}
use test_libuv.Looper.{Looper, push_event, handle_all}
use test_libuv.Looper
use test_libuv.Udp.{Udp, send_to, do_event, sendinl}
use test_libuv.Udp.Outbox.{
  UdpSystem, handed, handle, pending, send, woken, Reach, here, next, sent, wakes, quiet,
}
use test_libuv.Udp.Outbox.Order.{Reach-datagrams_in_order}

abbrev endpoint : Udp
endpoint = record { udp_id = 1; loop = true; errmsg = none; has_recv_cb = false }

abbrev loop : Looper
loop = record { event_queue = []; is_closed = false; inited = true; last_error = none }

abbrev waiting : ℕ → List ℕ → UvEvent
waiting addr bytes = record (plain_event UvEventType.write 1) {
  buff = some bytes;
  size = length bytes;
  addr = addr;
}

abbrev one_sent : UdpSystem
one_sent = record {
  endpoint = endpoint;
  looper = record loop { event_queue = waiting 5 (4 ∷ 2 ∷ []) ∷ [] };
  accepted = (5, 4 ∷ 2 ∷ []) ∷ [];
  out = [];
}

abbrev one_out : UdpSystem
one_out = record one_sent { looper = loop; out = (5, 4 ∷ 2 ∷ []) ∷ [] }

abbrev two_sent : UdpSystem
two_sent = record {
  endpoint = endpoint;
  looper = record loop { event_queue = waiting 6 (7 ∷ []) ∷ [] };
  accepted = (5, 4 ∷ 2 ∷ []) ∷ (6, 7 ∷ []) ∷ [];
  out = (5, 4 ∷ 2 ∷ []) ∷ [];
}

reached : Reach plain (λ x. x) (quiet endpoint loop) two_sent
unfolding send send_to create_uv_event slice push_event woken Looper.do_event handle_all handle
    do_event sendinl copy handed
reached =
    next
      (next (next here (sent {t = one_sent} (4 ∷ 2 ∷ []) 2 5 (omega arith) refl))
        (wakes {t = one_out} refl))
      (sent (7 ∷ []) 1 6 (omega arith) refl)

Reach-datagrams_in_order_example :
    (two_sent.accepted ≡ ((5, 4 ∷ 2 ∷ []) ∷ []) ++ pending two_sent.looper.event_queue)
    × (woken plain two_sent
        ≡ some (record two_sent { looper = loop; out = (5, 4 ∷ 2 ∷ []) ∷ (6, 7 ∷ []) ∷ [] }))
Reach-datagrams_in_order_example = Reach-datagrams_in_order plain (λ x. x) endpoint loop reached
