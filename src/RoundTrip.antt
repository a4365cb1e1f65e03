-- ===== src/RoundTrip.antt =====
-- The two demonstration programs together: what a client of TestClient/TestClient.cpp sends, through
-- a session of the server and the echo of TestServer/TestServer.cpp, back to the client's user. The
-- network may cut both streams anywhere; it loses and reorders nothing (TCP).
pub mod Datagram
pub mod FirstPart
pub mod Delivery
pub mod Broadcast
mod Tests
use test_libuv.Common.{
  some_eq, ℕ, zero, suc, ◌+◌, ◌^◌, ◌≤◌, ◌<◌, ◌≡◌, refl, sym, ap, subst, ◌∙◌, Bool, true, inl, inr,
  Option, none, some, List, [], ◌∷◌, ◌++◌, map, append-nil, arith, length, take, take_all, ◌>>=◌,
}
use test_libuv.Packet.{NetPacket, head_len, def_pack_head_flag, packet_bytes, packet_data}
use test_libuv.Packet.Build.{client_packet, packet_data_lem}
use test_libuv.PacketSync.{PacketSync, Allocator, done, int_limit}
use test_libuv.PacketSync.View.{IsValid, view, Keeps, length-view}
use test_libuv.PacketSync.Stream.{AllFrames, stream, delivered}
use test_libuv.PacketSync.Chunks.{AllBodies, AllBodies-Ready, joined}
use test_libuv.PacketSync.Receiver.{Receiver, after_recvs, after_recvs-stream}
use test_libuv.TcpServer.{Session}
use test_libuv.TcpServer
use test_libuv.TcpSession.Receive.{session_receiver, told}
use test_libuv.TcpClient.{TcpClient}
use test_libuv.TcpClient
use test_libuv.TcpClient.Receive.{client_receiver, told as told_client}
use test_libuv.TestServer.{on_client_recv}
use test_libuv.TestServer.Echo.{on_client_recv_lem}

-- The bytes of the packets that a client builds of its messages, one after the other.
unfoldable pub outgoing : ℕ → List (List ℕ) → Option (List ℕ)
outgoing id [] = some []
outgoing id (m ∷ ms) = do
  buffer ← packet_data id m (length m)
  rest ← outgoing id ms
  some (buffer ++ rest)

-- The bytes that the server's callback sends back, call after call.
unfoldable pub echoed : List TcpServer.Effect → Option (List ℕ)
echoed [] = some []
echoed (TcpServer.calls_recv pack id ∷ es) = do
  buffer ← on_client_recv pack
  rest ← echoed es
  some (buffer ++ rest)
echoed (_ ∷ es) = echoed es

-- Messages that the echo can hold.
abbrev pub AllSized : List (List ℕ) → Type 0
AllSized [] = Unit
AllSized (m ∷ ms) = (0 < length m) × (length m ≤ 1024) × AllSized ms

-- The packets of the messages.
abbrev pub packets : ℕ → List (List ℕ) → List NetPacket
packets id [] = []
packets id (m ∷ ms) = client_packet id m (length m) ∷ packets id ms

packets-AllFrames :
    (id : ℕ) (ms : List (List ℕ)) → AllSized ms → AllFrames def_pack_head_flag (packets id ms)
packets-AllFrames id [] h = tt
packets-AllFrames id (m ∷ ms) (pos, small, h) = (
  record {
    right_head = refl;
    word_head = omega arith;
    right_size = ap length (sym (take_all (length m) m (omega arith)));
    word_size = omega arith;
  },
  packets-AllFrames id ms h,
)

packets-AllBodies : (id : ℕ) (ms : List (List ℕ)) → AllSized ms → AllBodies (packets id ms)
packets-AllBodies id [] h = tt
packets-AllBodies id (m ∷ ms) (pos, small, h) =
    (omega (arith, ap length (take_all (length m) m (omega arith))), packets-AllBodies id ms h)

length-packets : (id : ℕ) (ms : List (List ℕ)) → length (packets id ms) ≡ length ms
length-packets id [] = refl
length-packets id (m ∷ ms) = ap suc (length-packets id ms)

outgoing_lem :
    (id : ℕ) (ms : List (List ℕ)) → AllSized ms → outgoing id ms ≡ some (stream (packets id ms) [])
unfolding outgoing
outgoing_lem id [] h = refl
outgoing_lem id (m ∷ ms) (pos, small, h) =
    rw (packet_data_lem id m (length m) (omega arith) (omega arith), outgoing_lem id ms h)

echoed_lem :
    (id : ℕ) (ms : List (List ℕ)) (v : Session)
    → AllSized ms
    → echoed (told true v (map packet_bytes (packets id ms))) ≡ some (stream (packets id ms) [])
unfolding echoed
echoed_lem id [] v h = refl
echoed_lem id (m ∷ ms) v (pos, small, h) =
    elim (on_client_recv_lem (client_packet id m (length m))
      (ap length (take_all (length m) m (omega arith))) (omega arith)) [
        | inl (_, e) ↦ rw (e, echoed_lem id ms v h)
        | inr (big, _) ↦ absurd (omega arith)
      ]

-- The `PacketSync` of a side that has got nothing yet, or only complete packets.
pub record IsIdle (p : PacketSync) : Type 0 where
  pub valid : IsValid p
  pub no_bytes : view p ≡ []
  pub right_head : p.head ≡ def_pack_head_flag
  pub called : p.has_callback ≡ true

-- One direction: the stream of the packets, cut anywhere, at an idle side.
one_way :
    {a : Allocator} {fuel : ℕ} (r : Receiver a fuel) (id : ℕ) (ms cs : List (List ℕ)) (s : r.S)
    → IsIdle (r.packet s)
    → AllSized ms
    → length (joined cs) < int_limit
    → length ms < fuel
    → joined cs ≡ stream (packets id ms) []
    → (p : PacketSync) × (after_recvs r cs s
        ≡ done (r.with_packet p s, r.told s (map packet_bytes (packets id ms))))
      × IsIdle p
one_way r id ms cs s i sized small enough e =
    let (p, all, k) =
      after_recvs-stream r cs s (packets id ms) [] i.valid
        (omega (arith, length-view (r.packet s) i.valid, ap length i.no_bytes))
        (ap (λ l. l ++ joined cs) i.no_bytes ∙ e)
        (subst (λ h. AllFrames h (packets id ms)) (sym i.right_head)
          (packets-AllFrames id ms sized))
        (AllBodies-Ready (packets id ms) [] (packets-AllBodies id ms sized)) (inl (omega arith))
        (inl (omega (arith, ap length i.no_bytes))) (omega (arith, length-packets id ms)) in
    (
      p,
      all ∙ ap (λ b. done (r.with_packet p s, r.told s (delivered b (packets id ms)))) i.called,
      record {
        valid = k.valid;
        no_bytes = k.bytes;
        right_head = k.same_head ∙ i.right_head;
        called = k.same_callback ∙ i.called;
      },
    )

-- What the user of the client is told of the packet of a message.
abbrev pub gets : ℕ → List ℕ → TcpClient.Effect
gets id m = TcpClient.calls_recv (packet_bytes (client_packet id m (length m)))

map-packets :
    (id : ℕ) (ms : List (List ℕ))
    → map TcpClient.calls_recv (map packet_bytes (packets id ms)) ≡ map (gets id) ms
map-packets id [] = refl
map-packets id (m ∷ ms) = ap (◌∷◌ (gets id m)) (map-packets id ms)

told_lem :
    (id : ℕ) (ms : List (List ℕ)) (c : TcpClient)
    → c.has_recv_cb ≡ true
    → told_client c (map packet_bytes (packets id ms)) ≡ map (gets id) ms
told_lem id ms c cb = rw (cb) (map-packets id ms)

-- Messages of 1 to 1024 bytes that a client packs and sends come back to its user: however the
-- network cuts the stream to the server, the calls of `AfterRecv` of the idle session all return and
-- the echo answers each packet inside its array; and however it cuts the stream of the answers, the
-- client's calls all return and its user gets the packet of each message exactly once, in order and
-- byte for byte. Both sides are idle again.
pub echo_round_trip :
    (a : Allocator) (fuel id : ℕ) (ms cs ds : List (List ℕ)) (v : Session) (c : TcpClient)
    → IsIdle v.ctx.packet
    → IsIdle c.packet
    → c.has_recv_cb ≡ true
    → AllSized ms
    → length ms < fuel
    → length (joined cs) < int_limit
    → outgoing id ms ≡ some (joined cs)
    → joined ds ≡ joined cs
    → (v' : Session) × (es : List TcpServer.Effect) × (c' : TcpClient) × (after_recvs
          (session_receiver a fuel true)
          cs
          v
        ≡ done (v', es))
      × (echoed es ≡ some (joined ds))
      × (after_recvs (client_receiver a fuel) ds c ≡ done (c', map (gets id) ms))
      × IsIdle v'.ctx.packet
      × IsIdle c'.packet
echo_round_trip a fuel id ms cs ds v c iv ic cb sized enough small sent back =
    let whole : joined cs ≡ stream (packets id ms) [] =
      some_eq (sym sent ∙ outgoing_lem id ms sized) in
    let (p, came, idle) =
      one_way (session_receiver a fuel true) id ms cs v iv sized small enough whole in
    let (q, again, idle') =
      one_way (client_receiver a fuel) id ms ds c ic sized (omega (arith, ap length back)) enough
        (back ∙ whole) in
    (
      _,
      _,
      _,
      came,
      echoed_lem id ms v sized ∙ ap some (sym (back ∙ whole)),
      again ∙ ap (λ es. done (record c { packet = q }, es)) (told_lem id ms c cb),
      idle,
      idle',
    )
