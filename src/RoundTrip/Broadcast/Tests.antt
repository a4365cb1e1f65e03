-- ===== src/RoundTrip/Broadcast/Tests.antt =====
-- A server that sends two packets to its client, of which the first has come, and a part of the
-- second.
use test_libuv.Common.{
  ℕ, ◌≡◌, refl, true, false, none, some, List, [], ◌∷◌, ◌++◌, arith, length, take, drop, pos, inl,
}
use test_libuv.Event.{UvEvent, UvEventType, plain_event}
use test_libuv.Packet.{NetPacket, def_pack_head_flag, packet_bytes}
use test_libuv.PacketSync.{done}
use test_libuv.PacketSync.Plain.{plain}
use test_libuv.PacketSync.Receiver.{after_recvs}
use test_libuv.Looper.{Looper}
use test_libuv.TcpServer.{Session, TcpServer, Effect, init, attach_looper, find}
use test_libuv.TcpServer
use test_libuv.TcpServer.Accept.{accept_connection, init_session}
use test_libuv.TcpServer.Maps.{IsMap, in_map, in_idle}
use test_libuv.TcpServer.Ownership.{IsSound, in_freed}
use test_libuv.TcpServer.Writes.{IsPool, AllValid}
use test_libuv.TcpServer.Broadcast.{member}
use test_libuv.TcpSession.Steps.{IsIntact, here, next, accepts, Reach-IsIntact}
use test_libuv.TcpClient.{TcpClient}
use test_libuv.TcpClient.Receive.{client_receiver, told}
use test_libuv.Dispatch.Outbox.{woken, bytes_to, messages_for}
use test_libuv.RoundTrip.Tests.{client, empty_packet-IsIdle}
use test_libuv.RoundTrip.Broadcast.{woken-delivered}

abbrev attached : TcpServer
attached = (attach_looper (pos 0) (init def_pack_head_flag false 0)).1

abbrev one_client : TcpServer
one_client = (accept_connection plain (pos 0) (pos 0) (pos 0) (pos 0) attached).0

attached-IsIntact : IsIntact attached
unfolding IsSound IsPool AllValid init attach_looper IsMap in_map in_idle in_freed
attached-IsIntact = ((λ x. ground arith, omega arith, omega arith), (tt, omega arith))

one_client-IsIntact : IsIntact one_client
one_client-IsIntact =
    Reach-IsIntact plain (next here (accepts (pos 0) (pos 0) (pos 0) (pos 0))) attached-IsIntact

first_found : (v : Session) × (find 1 one_client.session_map ≡ some v)
unfolding find accept_connection init attach_looper init_session TcpServer.insert
first_found = (_, refl)

abbrev first : NetPacket
first = record { flag = def_pack_head_flag; type = 1000; data_size = 2; body = b'4' ∷ b'2' ∷ [] }

abbrev second : NetPacket
second = record { flag = def_pack_head_flag; type = 1000; data_size = 1; body = b'7' ∷ [] }

-- What `PushBroadcastEvent` pushes.
abbrev to_all : NetPacket → List ℕ → UvEvent
to_all p excluded = record (plain_event UvEventType.broadcast 0) {
  buff = some (packet_bytes p);
  size = length (packet_bytes p);
  list = excluded;
}

abbrev loop : Looper
loop = record {
  event_queue = to_all first [] ∷ to_all second (2 ∷ []) ∷ to_all second (1 ∷ []) ∷ [];
  is_closed = false;
  inited = true;
  last_error = none;
}

abbrev chunks : List (List ℕ)
chunks =
    take 5 (packet_bytes first) ∷ (drop 5 (packet_bytes first) ++ take 3 (packet_bytes second)) ∷ []

woken-delivered_example :
    (s' : TcpServer) × (es : List Effect) × (c' : TcpClient) × (got : List (List ℕ)) × (later : List
      (List ℕ))
    × (woken plain (λ e x. pos 0) loop one_client
        ≡ (record loop { event_queue = [] }, some (s', es)))
    × (bytes_to first_found.0.ctx.address es ≡ messages_for 1 loop.event_queue)
    × (after_recvs (client_receiver plain 3) chunks client ≡ done (c', told client got))
    × (messages_for 1 loop.event_queue ≡ got ++ later)
    × (drop 3 (packet_bytes second) ≡ [] → later ≡ [])
unfolding packet_bytes messages_for member
woken-delivered_example =
    woken-delivered plain 3 (λ e x. pos 0) loop one_client 1 first_found.0 (first ∷ second ∷ [])
      chunks (drop 3 (packet_bytes second)) client one_client-IsIntact
      (inl (refl, omega arith), (inl (refl, omega arith), (inl (refl, omega arith), tt)))
      first_found.1 refl
      (
        record {
          right_head = refl;
          word_head = omega arith;
          right_size = refl;
          word_size = omega arith;
        },
        (
          record {
            right_head = refl;
            word_head = omega arith;
            right_size = refl;
            word_size = omega arith;
          },
          tt,
        ),
      )
      (omega arith, (omega arith, tt)) refl empty_packet-IsIdle.valid refl refl (omega arith)
      (omega arith)
