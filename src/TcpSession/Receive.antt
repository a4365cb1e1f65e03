-- ===== src/TcpSession/Receive.antt =====
-- `AfterRecv` of `CTcpClientSession` as a receiver: what the server's user is told.
use test_libuv.Common.{
  ℕ, suc, ◌≡◌, refl, Bool, true, false, List, [], ◌++◌, map, if◌then◌else◌, pos,
}
use mathlib.Core.List.{map-append}
use test_libuv.PacketSync.{PacketSync, Allocator, done, on_recv_data}
use test_libuv.PacketSync.Receiver.{Receiver}
use test_libuv.TcpServer.{Session, Effect, calls_recv}
use test_libuv.TcpSession.{after_recv, after_recv_data}

-- What the user is told of packets.
abbrev pub told : Bool → Session → List (List ℕ) → List Effect
told has_recv_cb v packs =
    if has_recv_cb then map (λ pack. calls_recv pack v.ctx.client_id) packs else []

abbrev pub with_packet : PacketSync → Session → Session
with_packet p v = record v { ctx = record v.ctx { packet = p } }

pub told-nil : (cb : Bool) (v : Session) → told cb v [] ≡ []
told-nil true v = refl
told-nil false v = refl

pub told-append :
    (cb : Bool) (v : Session) (xs ys : List (List ℕ))
    → told cb v (xs ++ ys) ≡ told cb v xs ++ told cb v ys
told-append true v xs ys = map-append (λ pack. calls_recv pack v.ctx.client_id) xs ys
told-append false v xs ys = refl

pub after_recv-suc :
    (a : Allocator) (fuel : ℕ) (cb : Bool) (buf : List ℕ) (n : ℕ) (v : Session) (p : PacketSync)
    (packs : List (List ℕ))
    → on_recv_data a fuel v.ctx.packet buf (suc n) ≡ done (p, packs)
    → after_recv a fuel cb buf (pos (suc n)) v ≡ done (with_packet p v, told cb v packs)
unfolding after_recv
after_recv-suc a fuel cb buf n v p packs e = rw (e, after_recv_data)

pub after_recv-zero :
    (a : Allocator) (fuel : ℕ) (cb : Bool) (buf : List ℕ) (v : Session)
    → after_recv a fuel cb buf (pos 0) v ≡ done (v, [])
unfolding after_recv
after_recv-zero a fuel cb buf v = refl

abbrev pub session_receiver : (a : Allocator) (fuel : ℕ) → Bool → Receiver a fuel
session_receiver a fuel cb = record {
  S = Session;
  E = Effect;
  packet = λ v. v.ctx.packet;
  with_packet = with_packet;
  told = told cb;
  after_recv = after_recv a fuel cb;
  after_recv-zero = after_recv-zero a fuel cb;
  after_recv-suc = after_recv-suc a fuel cb;
  packet-with_packet = λ p v. refl;
  with_packet-packet = λ v. refl;
  with_packet-with_packet = λ p q v. refl;
  told-nil = told-nil cb;
  told-append = told-append cb;
  told-with_packet = λ p v xs. refl;
}
