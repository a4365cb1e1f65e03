-- ===== src/RoundTrip/Broadcast.antt =====
-- From the user of a server to the user of a client: a queue of broadcasts, the loop, `uv_write`, a
-- network that cuts the bytes anywhere and may still have some of them under way, and `AfterRecv`
-- of a client.
mod Tests
use test_libuv.Common.{
  ℕ, ◌<◌, ◌≡◌, ◌∙◌, refl, sym, ap, true, some, List, [], ◌∷◌, ◌++◌, map, length, ℤ,
}
use test_libuv.Event.{UvEvent}
use test_libuv.Packet.{NetPacket, packet_bytes}
use test_libuv.PacketSync.{Allocator, done, int_limit}
use test_libuv.PacketSync.View.{IsValid, view}
use test_libuv.PacketSync.Stream.{AllFrames}
use test_libuv.PacketSync.Chunks.{AllBodies, joined}
use test_libuv.PacketSync.Receiver.{after_recvs}
use test_libuv.Looper.{Looper}
use test_libuv.TcpServer.{Session, TcpServer, Effect, find}
use test_libuv.TcpSession.Steps.{IsIntact}
use test_libuv.TcpClient.{TcpClient}
use test_libuv.TcpClient.Receive.{client_receiver, told}
use test_libuv.Dispatch.Outbox.{woken, bytes_to, messages_for, AllReady}
use test_libuv.Dispatch.Outbox.Sessions.{address_of-find}
use test_libuv.Dispatch.Outbox.Delivery.{woken-Serves}
use test_libuv.RoundTrip.FirstPart.{joined-map, first_part}

-- On a server between two callbacks the queue holds broadcasts with as many bytes as they announce,
-- and events of sessions that are in the map; those that do not leave out a session that is there
-- are packets with a body, right for the head of its client, which had got nothing. Then a wake-up
-- of the loop has no fault, and calls `uv_write` for that session on the bytes of these packets,
-- and no others. Of these a first part comes to the client, in any chunks: every call of
-- `AfterRecv` returns, and the user of the client is told of a first part of the messages, each
-- once, in order and byte for byte; of all of them, when nothing is under way.
pub woken-delivered :
    (a : Allocator) (fuel : ℕ) (code : UvEvent → ℕ → ℤ) (l : Looper) (s : TcpServer) (id : ℕ)
    (v : Session) (ps : List NetPacket) (cs : List (List ℕ)) (rest : List ℕ) (c : TcpClient)
    → IsIntact s
    → AllReady s l.event_queue
    → find id s.session_map ≡ some v
    → messages_for id l.event_queue ≡ map packet_bytes ps
    → AllFrames c.packet.head ps
    → AllBodies ps
    → joined cs ++ rest ≡ joined (messages_for id l.event_queue)
    → IsValid c.packet
    → view c.packet ≡ []
    → c.packet.has_callback ≡ true
    → length (joined cs) < int_limit
    → length ps < fuel
    → (s' : TcpServer) × (es : List Effect) × (c' : TcpClient) × (got : List (List ℕ))
      × (later : List (List ℕ)) × (woken a code l s
          ≡ (record l { event_queue = [] }, some (s', es)))
      × (bytes_to v.ctx.address es ≡ messages_for id l.event_queue)
      × (after_recvs (client_receiver a fuel) cs c ≡ done (c', told c got))
      × (messages_for id l.event_queue ≡ got ++ later)
      × (rest ≡ [] → later ≡ [])
woken-delivered a fuel code l s id v ps cs rest c h ready there packed fs bs came valid empty called
      small enough =
    let (s', es, ran, served) = woken-Serves a code l s h ready in
    let (p, got, later, all, parts, rest_comes) =
      first_part (client_receiver a fuel) ps cs rest c (came ∙ ap joined packed ∙ joined-map ps) fs
        bs valid empty called small enough in
    (
      s',
      es,
      record c { packet = p },
      got,
      later,
      ran,
      served.delivered id v.ctx.address (address_of-find id v s.session_map there),
      all,
      packed ∙ parts,
      rest_comes,
    )
