-- ===== src/PacketSync/Chunks.antt =====
-- How a stream of packets is split into chunks does not matter.
mod Splits
pub use Splits.{AllBodies, AllBodies-Ready, Split, Split-stream}
use test_libuv.PacketSync.Chunks.Splits.{
  Split, Split-stream, word-append, IsTail-prefix, IsTail-part,
}
use test_libuv.Common.{
  ℕ, ◌+◌, ◌%◌, ◌^◌, ◌≤◌, ◌<◌, ◌≡◌, refl, sym, ap, subst, ◌∙◌, Bool, true, false, inl, inr, List, [],
  ◌∷◌, ◌++◌, append-nil, append_assoc, arith, dec_le, length, take, drop, length-append,
  length-drop, drop-append_le, take-append_le, take-append-drop, take-append_len, drop-append_len,
  take_all,
}
use mathlib.Core.List.{map-append}
use test_libuv.Packet.{NetPacket, head_len, packet_bytes}
use test_libuv.Packet.Words.{le_value}
use test_libuv.PacketSync.{PacketSync, Allocator, done, on_recv_data, receive_all, int_limit}
use test_libuv.PacketSync.View.{IsValid, view, word, Keeps, length-view}
use test_libuv.PacketSync.Stream.{
  IsFrame, AllFrames, stream, IsTail, Ready, delivered, length-packet_bytes, flag_word, size_word,
  on_recv_data-stream, Keeps-trans, delivered-nil,
}

-- The chunks one after the other.
abbrev pub joined : List (List ℕ) → List ℕ
joined [] = []
joined (c ∷ cs) = c ++ joined cs

length-joined :
    (c : List ℕ) (cs : List (List ℕ)) → length (joined (c ∷ cs)) ≡ length c + length (joined cs)
length-joined c cs = length-append c (joined cs)

delivered-append :
    (c : Bool) (ps qs : List NetPacket) → delivered c (ps ++ qs) ≡ delivered c ps ++ delivered c qs
delivered-append true ps qs = map-append packet_bytes ps qs
delivered-append false ps qs = refl

length-came : (ps qs : List NetPacket) → length ps ≤ length (ps ++ qs)
length-came ps qs = omega (arith, length-append ps qs)

length-tail : (ps : List NetPacket) (tail : List ℕ) → length tail ≤ length (stream ps tail)
length-tail [] tail = omega arith
length-tail (p ∷ ps) tail =
    omega (arith, length-append (packet_bytes p) (stream ps tail), length-tail ps tail)

-- A complete packet is no tail.
not-IsTail :
    (head : ℕ) (q : NetPacket) (rest : List ℕ)
    → IsFrame head q
    → 0 < length q.body + length rest
    → ¬ IsTail head (packet_bytes q ++ rest)
not-IsTail head q rest f b (inl h) =
    omega (arith, length-append (packet_bytes q) rest, length-packet_bytes q)
not-IsTail head q rest f b (inr (e, h)) = omega (
  arith,
  length-append (packet_bytes q) rest,
  length-packet_bytes q,
  f.right_size,
  f.word_size,
  ap (λ (w : ℕ). (w + head_len) % 2 ^ 32) (size_word q rest (omega (arith, f.word_size))),
)

-- With nothing to come, a kept tail holds no packet.
pub nothing_came :
    (head : ℕ) (ps : List NetPacket) (tail kept : List ℕ)
    → kept ≡ stream ps tail
    → AllFrames head ps
    → Ready ps tail
    → IsTail head kept
    → (ps ≡ []) × (kept ≡ tail)
nothing_came head [] tail kept e fs bs t = (refl, e)
nothing_came head (q ∷ ps) tail kept e fs bs t =
    absurd (not-IsTail head q (stream ps tail) fs.0 bs.0 (subst (IsTail head) e t))

-- One more chunk, and all that follow.
pub and_then :
    (a : Allocator) (fuel : ℕ) (c : List ℕ) (cs : List (List ℕ)) (p p' p'' : PacketSync)
    (packs more : List (List ℕ))
    → on_recv_data a fuel p c (length c) ≡ done (p', packs)
    → receive_all a fuel p' cs ≡ done (p'', more)
    → receive_all a fuel p (c ∷ cs) ≡ done (p'', packs ++ more)
unfolding receive_all
and_then a fuel c cs p p' p'' packs more e e' = rw (e, receive_all, e')

-- Packets come one after the other, and then a tail in which no packet is complete; each packet has
-- a body, or a byte follows its header. The object is valid, has kept a part of the stream in which
-- no packet is complete, and all of it stays below the limit of the size. Then, however the rest is
-- cut into chunks, with more fuel than packets every call returns, the callback, if one is set, is
-- called once for each packet, in order, on exactly its bytes, and the tail is kept.
pub receive_all-stream :
    (a : Allocator) (fuel : ℕ) (cs : List (List ℕ)) (p : PacketSync) (ps : List NetPacket)
    (tail : List ℕ)
    → IsValid p
    → p.real_packet_len + length (joined cs) < int_limit
    → view p ++ joined cs ≡ stream ps tail
    → AllFrames p.head ps
    → Ready ps tail
    → IsTail p.head tail
    → IsTail p.head (view p)
    → length ps < fuel
    → (p' : PacketSync) × (receive_all a fuel p cs ≡ done (p', delivered p.has_callback ps))
      × Keeps p p' tail
receive_all-stream a fuel [] p ps tail v small e fs bs t kept h =
    let (none_came, same) =
      nothing_came p.head ps tail (view p) (sym (append-nil (view p)) ∙ e) fs bs kept in
    (
      p,
      unfold receive_all in
          ap (λ l. done (p, l))
            (sym (delivered-nil p.has_callback) ∙ ap (delivered p.has_callback) (sym none_came)),
      record { valid = v; bytes = same; same_head = refl; same_callback = refl },
    )
receive_all-stream a fuel (c ∷ cs) p ps tail v small e fs bs t kept h =
    let s =
      Split-stream p.head ps tail (view p ++ c) (joined cs)
        (append_assoc (view p) c (joined cs) ∙ e) fs bs t in
    let (p', now, k) =
      on_recv_data-stream a p c (length c) s.came s.kept fuel v (omega arith)
        (omega (arith, length-joined c cs))
        (ap (◌++◌ (view p)) (take_all (length c) c (omega arith)) ∙ s.so_far) s.came_frames
        s.came_ready s.is_tail (omega (arith, ap length s.packets, length-came s.came s.coming)) in
    let head = λ (l : List NetPacket).
      λ (f : AllFrames p.head l). subst (λ h. AllFrames h l) (sym k.same_head) f in
    let (p'', later, k') =
      receive_all-stream a fuel cs p' s.coming tail k.valid
        (omega (
          arith,
          length-view p' k.valid,
          ap length k.bytes,
          ap length s.so_far,
          length-tail s.came s.kept,
          length-append (view p) c,
          length-view p v,
          length-joined c cs,
        ))
        (ap (λ u. u ++ joined cs) k.bytes ∙ s.to_come) (head s.coming s.coming_frames)
        s.coming_ready (subst (λ h. IsTail h tail) (sym k.same_head) t)
        (subst (λ h. IsTail h (view p')) (sym k.same_head)
          (subst (IsTail p.head) (sym k.bytes) s.is_tail))
        (omega (arith, ap length s.packets, length-append s.came s.coming)) in
    (
      p'',
      and_then a fuel c cs p p' p'' _ _ now later
          ∙ ap (λ l. done (p'', l))
              (ap (λ b. delivered p.has_callback s.came ++ delivered b s.coming) k.same_callback
                ∙ sym (delivered-append p.has_callback s.came s.coming)
                ∙ ap (delivered p.has_callback) (sym s.packets)),
      Keeps-trans k k',
    )
