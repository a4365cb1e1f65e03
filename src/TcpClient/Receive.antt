-- ===== src/TcpClient/Receive.antt =====
-- `AfterRecv` of `CTcpClient` as a receiver: what the user of the client is told.
use test_libuv.Common.{ℕ, suc, ◌≡◌, refl, List, [], ◌++◌, map, if◌then◌else◌, pos, arith}
use mathlib.Core.List.{map-append}
use test_libuv.PacketSync.{PacketSync, Allocator, done, on_recv_data}
use test_libuv.PacketSync.Receiver.{Receiver}
use test_libuv.TcpClient.{TcpClient, Effect, calls_recv}
use test_libuv.TcpClient.Callbacks.{after_recv, after_recv_data}

-- What the user is told of packets.
abbrev pub told : TcpClient → List (List ℕ) → List Effect
told c packs = if c.has_recv_cb then map calls_recv packs else []

abbrev pub with_packet : PacketSync → TcpClient → TcpClient
with_packet p c = record c { packet = p }

pub told-nil : (c : TcpClient) → told c [] ≡ []
told-nil c = ground arith

pub told-append :
    (c : TcpClient) (xs ys : List (List ℕ)) → told c (xs ++ ys) ≡ told c xs ++ told c ys
told-append c xs ys = ground (arith, map-append calls_recv xs ys)

pub after_recv-suc :
    (a : Allocator) (fuel : ℕ) (buf : List ℕ) (n : ℕ) (c : TcpClient) (p : PacketSync)
    (packs : List (List ℕ))
    → on_recv_data a fuel c.packet buf (suc n) ≡ done (p, packs)
    → after_recv a fuel buf (pos (suc n)) c ≡ done (with_packet p c, told c packs)
unfolding after_recv
after_recv-suc a fuel buf n c p packs e = rw (e, after_recv_data)

pub after_recv-zero :
    (a : Allocator) (fuel : ℕ) (buf : List ℕ) (c : TcpClient)
    → after_recv a fuel buf (pos 0) c ≡ done (c, [])
unfolding after_recv
after_recv-zero a fuel buf c = refl

abbrev pub client_receiver : (a : Allocator) (fuel : ℕ) → Receiver a fuel
client_receiver a fuel = record {
  S = TcpClient;
  E = Effect;
  packet = λ c. c.packet;
  with_packet = with_packet;
  told = told;
  after_recv = after_recv a fuel;
  after_recv-zero = after_recv-zero a fuel;
  after_recv-suc = after_recv-suc a fuel;
  packet-with_packet = λ p c. refl;
  with_packet-packet = λ c. refl;
  with_packet-with_packet = λ p q c. refl;
  told-nil = told-nil;
  told-append = told-append;
  told-with_packet = λ p c xs. refl;
}
