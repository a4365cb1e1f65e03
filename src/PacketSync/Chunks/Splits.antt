-- ===== src/PacketSync/Chunks/Splits.antt =====
-- Where a first part of a stream of packets ends: behind some packets and a part of the next.
use test_libuv.Common.{
  ℕ, ◌+◌, ◌%◌, ◌^◌, ◌≤◌, ◌<◌, ◌≡◌, refl, sym, ap, subst, ◌∙◌, inl, inr, List, [], ◌∷◌, ◌++◌, arith,
  dec_le, length, take, drop, length-append, length-drop, drop-append_le, take-append_le,
  take-append-drop, take-append_len, drop-append_len,
}
use test_libuv.Packet.{NetPacket, head_len, packet_bytes}
use test_libuv.Packet.Words.{le_value}
use test_libuv.PacketSync.View.{word}
use test_libuv.PacketSync.Stream.{
  IsFrame, AllFrames, stream, IsTail, Ready, length-packet_bytes, flag_word, size_word,
}

-- Every packet has a body.
abbrev pub AllBodies : List NetPacket → Type 0
AllBodies [] = Unit
AllBodies (p ∷ ps) = (0 < length p.body) × AllBodies ps

pub word-append : (xs ys : List ℕ) (i : ℕ) → i + 4 ≤ length xs → word (xs ++ ys) i ≡ word xs i
word-append xs ys i h =
    ap (λ l. le_value (take 4 l)) (drop-append_le i xs ys (omega arith))
    ∙ ap le_value (take-append_le 4 (drop i xs) ys (omega (arith, length-drop i xs)))

pub AllBodies-Ready : (ps : List NetPacket) (tail : List ℕ) → AllBodies ps → Ready ps tail
AllBodies-Ready [] tail b = tt
AllBodies-Ready (p ∷ ps) tail b = (omega arith, AllBodies-Ready ps tail b.1)

-- What has come of a stream is again packets and a tail.
pub record Split (head : ℕ) (ps : List NetPacket) (tail xs ys : List ℕ) : Type 0 where
  pub came : List NetPacket
  pub coming : List NetPacket
  pub kept : List ℕ
  pub packets : ps ≡ came ++ coming
  pub so_far : xs ≡ stream came kept
  pub to_come : kept ++ ys ≡ stream coming tail
  pub is_tail : IsTail head kept
  pub came_frames : AllFrames head came
  pub came_ready : Ready came kept
  pub coming_frames : AllFrames head coming
  pub coming_ready : Ready coming tail

-- A part of a tail is a tail, and so is an incomplete packet.
pub IsTail-prefix : (head : ℕ) (xs ys : List ℕ) → IsTail head (xs ++ ys) → IsTail head xs
IsTail-prefix head xs ys (inl h) = inl (omega (arith, length-append xs ys))
IsTail-prefix head xs ys (inr (e, h)) = elim (dec_le (length xs) head_len) [
  | yes short ↦ inl short
  | no long ↦ inr (
    sym (word-append xs ys 0 (omega arith)) ∙ e,
    omega (
      arith,
      length-append xs ys,
      ap (λ (w : ℕ). (w + head_len) % 2 ^ 32) (word-append xs ys 8 (omega arith)),
    ),
  )
]

pub IsTail-part :
    (head : ℕ) (q : NetPacket) (xs ys rest : List ℕ)
    → IsFrame head q
    → xs ++ ys ≡ packet_bytes q ++ rest
    → length xs < length (packet_bytes q)
    → IsTail head xs
IsTail-part head q xs ys rest f e h = elim (dec_le (length xs) head_len) [
  | yes short ↦ inl short
  | no long ↦
      let size : word xs 8 ≡ q.data_size =
        sym (word-append xs ys 8 (omega arith))
        ∙ ap (λ l. word l 8) e
        ∙ size_word q rest (omega (arith, f.word_size)) in
      inr (
        sym (word-append xs ys 0 (omega arith))
            ∙ ap (λ l. word l 0) e
            ∙ flag_word q rest f.word_head
            ∙ f.right_head,
        omega (arith, size, f.right_size, f.word_size, length-packet_bytes q),
      )
]

pub Split-stream :
    (head : ℕ) (ps : List NetPacket) (tail xs ys : List ℕ)
    → xs ++ ys ≡ stream ps tail
    → AllFrames head ps
    → Ready ps tail
    → IsTail head tail
    → Split head ps tail xs ys
Split-stream head [] tail xs ys e fs bs t = record {
  came = [];
  coming = [];
  kept = xs;
  packets = refl;
  so_far = refl;
  to_come = e;
  is_tail = IsTail-prefix head xs ys (subst (IsTail head) (sym e) t);
  came_frames = tt;
  came_ready = tt;
  coming_frames = tt;
  coming_ready = tt;
}
Split-stream head (q ∷ ps) tail xs ys e fs bs t = elim (dec_le (length xs) head_len) [
  | yes short ↦ all_kept (inl short)
  | no long ↦ elim (dec_le n (length xs)) [
    | yes whole ↦
        let front : take n xs ≡ packet_bytes q =
          sym (take-append_le n xs ys whole)
          ∙ ap (take n) e
          ∙ take-append_len n (packet_bytes q) (stream ps tail) refl in
        let s =
          Split-stream head ps tail (drop n xs) ys
            (sym (drop-append_le n xs ys whole)
              ∙ ap (drop n) e
              ∙ drop-append_len n (packet_bytes q) (stream ps tail) refl)
            fs.1 bs.1 t in
        record {
          came = q ∷ s.came;
          coming = s.coming;
          kept = s.kept;
          packets = ap (◌∷◌ q) s.packets;
          so_far =
              sym (take-append-drop n xs)
              ∙ ap (λ l. l ++ drop n xs) front
              ∙ ap (◌++◌ (packet_bytes q)) s.so_far;
          to_come = s.to_come;
          is_tail = s.is_tail;
          came_frames = (fs.0, s.came_frames);
          came_ready = (
            omega (arith, ap length s.so_far, length-drop n xs, length-packet_bytes q),
            s.came_ready,
          );
          coming_frames = s.coming_frames;
          coming_ready = s.coming_ready;
        }
    | no part ↦ all_kept (IsTail-part head q xs ys (stream ps tail) fs.0 e (omega arith))
  ]
]
  where
    n : ℕ
    n = length (packet_bytes q)

    all_kept : IsTail head xs → Split head (q ∷ ps) tail xs ys
    all_kept is_tail = record {
      came = [];
      coming = q ∷ ps;
      kept = xs;
      packets = refl;
      so_far = refl;
      to_come = e;
      is_tail = is_tail;
      came_frames = tt;
      came_ready = tt;
      coming_frames = fs;
      coming_ready = bs;
    }
