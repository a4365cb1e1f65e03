-- ===== src/RoundTrip/Delivery/Tests.antt =====
-- A client that has sent two packets, of which the session of a server has got the first.
use test_libuv.Common.{
  ℕ, ◌≤◌, ◌<◌, ◌⊎◌, ℤ, pos, ◌≡◌, refl, true, false, none, some, List, [], ◌∷◌, ◌++◌, map, arith,
  length, replicate, take, drop,
}
use test_libuv.Packet.{NetPacket, def_pack_head_flag, packet_bytes}
use test_libuv.PacketSync.{done}
use test_libuv.PacketSync.Receiver.{after_recvs}
use test_libuv.PacketSync.Plain.{plain}
use test_libuv.TcpServer.{Session}
use test_libuv.TcpSession.Receive.{session_receiver, told}
use test_libuv.Event.{UvEvent, UvEventType, plain_event}
use test_libuv.Looper.{Looper, handle_all, push_event}
use test_libuv.Looper
use test_libuv.TcpClient.{send, do_event, sendinl}
use test_libuv.TcpClient.Outbox.{
  handle, written, takes, accepts, System, sent, woken, sends, wakes, Reach, here, next, quiet,
}
use test_libuv.RoundTrip.Delivery.{Reach-delivered}
use test_libuv.RoundTrip.Tests.{client, session, empty_packet-IsIdle}

-- Two packets are sent, and the loop has written the first of them, of which all bytes have come.
abbrev first : NetPacket
first = record { flag = def_pack_head_flag; type = 1000; data_size = 2; body = b'4' ∷ b'2' ∷ [] }

abbrev second : NetPacket
second = record { flag = def_pack_head_flag; type = 1000; data_size = 1; body = b'7' ∷ [] }

abbrev loop : Looper
loop = record { event_queue = []; is_closed = false; inited = true; last_error = none }

abbrev write_event : List ℕ → UvEvent
write_event bytes = record (plain_event UvEventType.write 1000) {
  buff = some bytes;
  size = length bytes;
}

abbrev after_one : System
after_one = record {
  client = client;
  looper = record loop { event_queue = write_event (packet_bytes first) ∷ [] };
  accepted = packet_bytes first ∷ [];
  wrote = [];
}

abbrev after_wake : System
after_wake = record after_one { looper = loop; wrote = packet_bytes first ∷ [] }

abbrev after_two : System
after_two = record {
  client = client;
  looper = record loop { event_queue = write_event (packet_bytes second) ∷ [] };
  accepted = packet_bytes first ∷ packet_bytes second ∷ [];
  wrote = packet_bytes first ∷ [];
}

two_sent : Reach (quiet client loop) after_two
unfolding sent woken takes accepts send do_event handle_all Looper.do_event test_libuv.Common.slice
    push_event handle written sendinl packet_bytes
two_sent =
    next
      (next (next here (sends {t = after_one} (packet_bytes first) 14 (omega arith) refl))
        (wakes {t = after_wake} (λ e. pos 0) (λ e. pos 0) refl))
      (sends (packet_bytes second) 13 (omega arith) refl)

Reach-delivered_example :
    (v' : Session) × (got : List (List ℕ)) × (later : List (List ℕ)) × (after_recvs
        (session_receiver plain 3 true)
        (take 5 (packet_bytes first) ∷ drop 5 (packet_bytes first) ∷ [])
        session
      ≡ done (v', told true session got))
    × (after_two.accepted ≡ got ++ later)
    × (◌≡◌ {A = List ℕ} [] [] → after_two.looper.event_queue ≡ [] → later ≡ [])
unfolding packet_bytes
Reach-delivered_example =
    Reach-delivered plain 3 client loop (first ∷ second ∷ [])
      (take 5 (packet_bytes first) ∷ drop 5 (packet_bytes first) ∷ []) [] session two_sent refl
      (
        record {
          right_head = refl;
          word_head = omega arith;
          right_size = refl;
          word_size = omega arith;
        },
        (
          record {
            right_head = refl;
            word_head = omega arith;
            right_size = refl;
            word_size = omega arith;
          },
          tt,
        ),
      )
      (omega arith, (omega arith, tt)) refl empty_packet-IsIdle.valid refl refl (omega arith)
      (omega arith)
