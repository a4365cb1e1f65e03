-- ===== src/Udp/Receiving.antt =====
-- `CUvUdp`: a datagram from the read buffer to the user.
use test_libuv.Common.{
  ℕ, zero, suc, ◌≤◌, ◌≡◌, refl, some, List, [], ◌∷◌, arith, ℤ, pos, negsuc, pos_part, length, take,
  slice_lem, if◌then◌else◌,
}
use test_libuv.PacketSync.{Allocator}
use test_libuv.Udp.{Udp, Effect, calls_recv, alloc_buffer_for_recv, after_recv, pack_udp_size}

length-alloc_buffer_for_recv : (a : Allocator) → length (alloc_buffer_for_recv a) ≡ pack_udp_size
unfolding alloc_buffer_for_recv
length-alloc_buffer_for_recv a = a.length-malloc pack_udp_size

-- What the user is told of `nread` bytes of a buffer.
abbrev pub told : List ℕ → ℤ → ℕ → Udp → List Effect
told buf (negsuc n) addr u = []
told buf (pos zero) addr u = []
told buf (pos (suc n)) addr u =
    if u.has_recv_cb then calls_recv (take (suc n) buf) addr ∷ [] else []

-- On a buffer as large as the one that `AllocBufferForRecv` hands out, and for any `nread` within
-- it, the callback does not fault: an error and an empty datagram are dropped, and of any other the
-- user is told once.
pub after_recv_lem :
    (a : Allocator) (buf : List ℕ) (nread : ℤ) (addr : ℕ) (u : Udp)
    → length buf ≡ length (alloc_buffer_for_recv a)
    → pos_part nread ≤ pack_udp_size
    → after_recv buf nread addr u ≡ some (told buf nread addr u)
unfolding after_recv
after_recv_lem a buf (negsuc n) addr u e h = refl
after_recv_lem a buf (pos zero) addr u e h = refl
after_recv_lem a buf (pos (suc n)) addr u e h =
    ground (arith, slice_lem buf 0 (suc n) (omega (arith, h, e, length-alloc_buffer_for_recv a)))
