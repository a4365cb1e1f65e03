-- ===== src/PacketSync/Safety.antt =====
-- `OnRecvData` on any bytes at all: no copy leaves its block, and the object stays valid.
use test_libuv.Common.{ℕ, ◌+◌, ◌≤◌, ◌<◌, ◌≡◌, refl, ◌∙◌, List, [], length}
use test_libuv.PacketSync.{
  PacketSync, Allocator, Outcome, done, fault, unfinished, drain, on_recv_data, int_limit,
}
use test_libuv.PacketSync.Loop.{Turn, discards, cuts, Ends, drain-Ends}
use test_libuv.PacketSync.View.{IsValid, append_data-Keeps}

-- The result is no fault; an object that is handed back is valid and has the same head.
abbrev pub Sound : ℕ → Outcome (PacketSync × List (List ℕ)) → Type 0
Sound head (done (p, packs)) = IsValid p × (p.head ≡ head)
Sound head fault = ⊥
Sound head unfinished = Unit

Turn-head : {p p' : PacketSync} {packs : List (List ℕ)} → Turn p p' packs → p'.head ≡ p.head
Turn-head (discards k l) = k.same_head
Turn-head (cuts n fits k l e) = k.same_head

Ends-Sound :
    (head : ℕ) (o : Outcome (PacketSync × List (List ℕ)))
    → Ends (λ p out. p.head ≡ head) o
    → Sound head o
Ends-Sound head (done (p, packs)) (v, same, w) = (v, same)
Ends-Sound head fault h = h
Ends-Sound head unfinished h = tt

drain-Sound : (fuel : ℕ) (p : PacketSync) → IsValid p → Sound p.head (drain fuel p [])
drain-Sound fuel p v = Ends-Sound p.head (drain fuel p []) (
    drain-Ends (λ q out. q.head ≡ p.head) (λ q q' out packs k turn h. Turn-head turn ∙ h) fuel p []
      v refl)

-- Whatever bytes come, from a valid object and with a sum of lengths that fits into an `int`, the
-- call does not fault for any fuel; when it returns, the object is valid and its head unchanged.
pub on_recv_data-Sound :
    (a : Allocator) (fuel : ℕ) (p : PacketSync) (bytes : List ℕ) (n : ℕ)
    → IsValid p
    → n ≤ length bytes
    → p.real_packet_len + n < int_limit
    → Sound p.head (on_recv_data a fuel p bytes n)
unfolding on_recv_data
on_recv_data-Sound a fuel p bytes n v fits small =
    let (q, appended, k) = append_data-Keeps a p bytes n v fits small in
    rw (appended, on_recv_data, ← k.same_head) (drain-Sound fuel q k.valid)
