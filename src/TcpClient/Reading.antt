-- ===== src/TcpClient/Reading.antt =====
-- `AfterRecv` of `CTcpClient` on whatever a peer sends.
use test_libuv.Common.{
  ℕ, zero, suc, ◌+◌, ◌≤◌, ◌<◌, ◌≡◌, refl, List, arith, ℤ, pos, negsuc, pos_part, length, inl, inr,
  subst,
}
use test_libuv.PacketSync.{
  Allocator, Outcome, done, fault, unfinished, on_recv_data, int_limit, pack_buffer_size,
}
use test_libuv.PacketSync.View.{IsValid}
use test_libuv.PacketSync.Receiver.{Outcome-cases}
use test_libuv.PacketSync.Safety.{Sound, on_recv_data-Sound}
use test_libuv.TcpClient.{TcpClient, Run}
use test_libuv.TcpClient.Callbacks.{alloc_buffer_for_recv, after_recv, after_recv_data}

-- No fault, and what is handed back is an object with a valid packet splitter of the same head.
abbrev pub IsFaultless : ℕ → Outcome Run → Type 0
IsFaultless head (done (c, es)) = IsValid c.packet × (c.packet.head ≡ head)
IsFaultless head fault = ⊥
IsFaultless head unfinished = Unit

after_recv_data-IsFaultless :
    (a : Allocator) (fuel : ℕ) (buf : List ℕ) (n : ℕ) (c : TcpClient)
    → Sound c.packet.head (on_recv_data a fuel c.packet buf n)
    → IsFaultless c.packet.head (after_recv_data a fuel buf n c)
unfolding after_recv_data
after_recv_data-IsFaultless a fuel buf n c h =
    elim (Outcome-cases (on_recv_data a fuel c.packet buf n)) [
      | inl ((p, packs), e) ↦ rw (after_recv_data, e) (subst (Sound c.packet.head) e h)
      | inr (inl e) ↦ absurd (subst (Sound c.packet.head) e h)
      | inr (inr e) ↦ rw (after_recv_data, e) tt
    ]

-- A client with a valid packet splitter, and a buffer as large as the one that `AllocBufferForRecv` hands
-- out: whatever bytes and whatever `nread` within it come, and for any fuel, `AfterRecv` does not fault, as long as an
-- `int` holds the kept bytes and one buffer more; the splitter stays valid.
pub after_recv-IsFaultless :
    (a : Allocator) (fuel : ℕ) (buf : List ℕ) (nread : ℤ) (c : TcpClient)
    → IsValid c.packet
    → length buf ≡ length (alloc_buffer_for_recv a)
    → pos_part nread ≤ pack_buffer_size
    → c.packet.real_packet_len + pack_buffer_size < int_limit
    → IsFaultless c.packet.head (after_recv a fuel buf nread c)
unfolding after_recv alloc_buffer_for_recv
after_recv-IsFaultless a fuel buf (negsuc n) c v e h small = (v, refl)
after_recv-IsFaultless a fuel buf (pos zero) c v e h small = (v, refl)
after_recv-IsFaultless a fuel buf (pos (suc n)) c v e h small =
    after_recv_data-IsFaultless a fuel buf (suc n) c (
      on_recv_data-Sound a fuel c.packet buf (suc n) v
        (omega (arith, h, e, a.length-malloc pack_buffer_size)) (omega (arith, h, small)))
