-- ===== src/RoundTrip/Delivery.antt =====
-- From the user of a client to the user of a server: `Send` of `CTcpClient`, the queue of its loop,
-- `uv_write`, a network that cuts the bytes anywhere and may still have some of them under way, and
-- `AfterRecv` of the session.
mod Tests
use test_libuv.Common.{
  ℕ, ◌<◌, ◌≡◌, ◌∙◌, refl, sym, ap, subst, true, List, [], ◌∷◌, ◌++◌, map, append-nil, append_assoc,
  arith, length, length-append, inl, pos,
}
use mathlib.Core.List.{map-append}
use test_libuv.Packet.{NetPacket, packet_bytes}
use test_libuv.PacketSync.{Allocator, done, int_limit}
use test_libuv.PacketSync.View.{IsValid, view, length-view}
use test_libuv.PacketSync.Stream.{AllFrames, stream, delivered}
use test_libuv.PacketSync.Chunks.{
  AllBodies, AllBodies-Ready, joined, Split, Split-stream, nothing_came,
}
use test_libuv.PacketSync.Receiver.{after_recvs, after_recvs-stream}
use test_libuv.Looper.{Looper}
use test_libuv.TcpServer.{Session, Effect}
use test_libuv.TcpSession.Receive.{session_receiver, told}
use test_libuv.TcpClient.{TcpClient}
use test_libuv.TcpClient.Outbox.{System, Reach, quiet, pending}
use test_libuv.TcpClient.Outbox.Order.{Reach-sent_in_order}
use test_libuv.RoundTrip.FirstPart.{joined-append, joined-map, first_part}

-- Any threads have called `Send` and other methods of a client whose queue was empty, its loop has
-- woken and libuv has called back in any order; what `Send` has accepted are packets with a body,
-- right for the head of the server. Some first part of the bytes that `uv_write` was called on has
-- come to a session that had got nothing, in any chunks. Then every call of `AfterRecv` returns,
-- and the user of the server is told of a first part of the messages that `Send` has accepted, each
-- once, in order and byte for byte; of all of them, when nothing waits in the queue and nothing is
-- under way.
pub Reach-delivered :
    (a : Allocator) (fuel : ℕ) (c : TcpClient) (l : Looper) {s : System} (ps : List NetPacket)
    (cs : List (List ℕ)) (rest : List ℕ) (v : Session)
    → Reach (quiet c l) s
    → s.accepted ≡ map packet_bytes ps
    → AllFrames v.ctx.packet.head ps
    → AllBodies ps
    → joined cs ++ rest ≡ joined s.wrote
    → IsValid v.ctx.packet
    → view v.ctx.packet ≡ []
    → v.ctx.packet.has_callback ≡ true
    → length (joined cs) < int_limit
    → length ps < fuel
    → (v' : Session) × (got : List (List ℕ)) × (later : List (List ℕ)) × (after_recvs
          (session_receiver a fuel true)
          cs
          v
        ≡ done (v', told true v got))
      × (s.accepted ≡ got ++ later)
      × (rest ≡ [] → s.looper.event_queue ≡ [] → later ≡ [])
unfolding pending
Reach-delivered a fuel c l {s} ps cs rest v r packed fs bs came valid empty called small enough =
    let waiting = pending s.looper.event_queue in
    let in_order = (Reach-sent_in_order c l (λ e. pos 0) (λ e. pos 0) r).0 in
    let whole : joined cs ++ (rest ++ joined waiting) ≡ stream ps [] =
      sym (append_assoc (joined cs) rest (joined waiting))
      ∙ ap (λ b. b ++ joined waiting) came
      ∙ sym (joined-append s.wrote waiting)
      ∙ ap joined (sym in_order ∙ packed)
      ∙ joined-map ps in
    let (p, got, later, all, parts, rest_comes) =
      first_part (session_receiver a fuel true) ps cs (rest ++ joined waiting) v whole fs bs valid
        empty called small enough in
    (
      record v { ctx = record v.ctx { packet = p } },
      got,
      later,
      all,
      packed ∙ parts,
      λ none_left none_waits.
          rest_comes
            (ap (λ b. b ++ joined waiting) none_left ∙ ap (λ es. joined (pending es)) none_waits),
    )
