-- ===== src/PacketSync/Stream.antt =====
-- `OnRecvData` on a stream of packets: it delivers each complete packet once, in order, and keeps
-- the bytes of the one that is still incomplete.
use test_libuv.Common.{
  ℕ, zero, suc, ◌+◌, ◌^◌, ◌≤◌, ◌<◌, ◌≡◌, refl, sym, ap, ap₂, ◌≢◌, subst, ◌∙◌, Bool, true, false,
  ◌⊎◌, inl, inr, some, List, [], ◌∷◌, ◌++◌, map, append-nil, append_assoc, arith, if◌then◌else◌,
  lt→ltb, le→ltb, ==_iff, length, take, drop, length-append, drop-append_len, take-append_len,
}
use test_libuv.Packet.{NetPacket, head_len, packet_bytes}
use test_libuv.Packet.Words.{le_value-word_bytes}
use test_libuv.PacketSync.{
  PacketSync, Allocator, leave, done, round, drain, on_recv_data, int_limit,
}
use test_libuv.PacketSync.View.{
  IsValid, view, word, announced, wait, discard, cut, verdict, Keeps, Follows, round_lem,
  append_data-Keeps, drain_again, drain_leave,
}

-- A packet whose fields are what a sender with this head writes.
pub record IsFrame (head : ℕ) (p : NetPacket) : Type 0 where
  pub right_head : p.flag ≡ head
  pub word_head : p.flag < 2 ^ 32
  pub right_size : p.data_size ≡ length p.body
  pub word_size : p.data_size + head_len < 2 ^ 32

abbrev pub AllFrames : ℕ → List NetPacket → Type 0
AllFrames head [] = Unit
AllFrames head (p ∷ ps) = IsFrame head p × AllFrames head ps

-- The packets one after the other, and then `tail`.
abbrev pub stream : List NetPacket → List ℕ → List ℕ
stream [] tail = tail
stream (p ∷ ps) tail = packet_bytes p ++ stream ps tail

-- No complete packet stands at the front of `tail`, nor a wrong head: there are too few bytes for a
-- header and one byte, or the header announces more than there is.
abbrev pub IsTail : ℕ → List ℕ → Type 0
IsTail head tail =
    (length tail ≤ head_len) ⊎ ((word tail 0 ≡ head) × (length tail < announced tail))

-- At each packet there are more bytes than those of a header: the loop looks at a packet without a
-- body only when another byte follows.
abbrev pub Ready : List NetPacket → List ℕ → Type 0
Ready [] tail = Unit
Ready (p ∷ ps) tail = (0 < length p.body + length (stream ps tail)) × Ready ps tail

verdict-tail : (head : ℕ) (tail : List ℕ) → IsTail head tail → verdict head tail ≡ wait
unfolding verdict
verdict-tail head tail (inl h) = rw (le→ltb head_len (length tail) h)
verdict-tail head tail (inr (e, h)) = ground arith

pub length-packet_bytes : (p : NetPacket) → length (packet_bytes p) ≡ head_len + length p.body
unfolding packet_bytes
length-packet_bytes p = omega arith

pub flag_word :
    (p : NetPacket) (rest : List ℕ) → p.flag < 2 ^ 32 → word (packet_bytes p ++ rest) 0 ≡ p.flag
unfolding packet_bytes
flag_word p rest h = le_value-word_bytes p.flag h

pub size_word :
    (p : NetPacket) (rest : List ℕ)
    → p.data_size < 2 ^ 32
    → word (packet_bytes p ++ rest) 8 ≡ p.data_size
unfolding packet_bytes
size_word p rest h = le_value-word_bytes p.data_size h

-- A complete packet at the front, and at least one byte behind its header, is cut off.
pub verdict-packet_bytes :
    (head : ℕ) (p : NetPacket) (rest : List ℕ)
    → IsFrame head p
    → 0 < length p.body + length rest
    → verdict head (packet_bytes p ++ rest) ≡ cut (length (packet_bytes p))
unfolding verdict
verdict-packet_bytes head p rest f h =
    rw
      (
        lt→ltb head_len (length (packet_bytes p ++ rest))
            (omega (arith, length-append (packet_bytes p) rest, length-packet_bytes p)),
        flag_word p rest f.word_head,
        (==_iff p.flag head).1 f.right_head,
        size_word p rest (omega (arith, f.word_size)),
      )
      (ground (
        arith,
        f.word_size,
        f.right_size,
        length-append (packet_bytes p) rest,
        length-packet_bytes p,
      ))

-- What the callback is called on for these packets.
abbrev pub delivered : Bool → List NetPacket → List (List ℕ)
delivered has_callback ps = if has_callback then map packet_bytes ps else []

pub delivered-nil : (c : Bool) → delivered c [] ≡ []
delivered-nil true = refl
delivered-nil false = refl

delivered-cons :
    (c : Bool) (q : NetPacket) (ps : List NetPacket)
    → (if c then packet_bytes q ∷ [] else []) ++ delivered c ps ≡ delivered c (q ∷ ps)
delivered-cons true q ps = refl
delivered-cons false q ps = refl

pub Keeps-trans : {p q r : PacketSync} {bs cs : List ℕ} → Keeps p q bs → Keeps q r cs → Keeps p r cs
Keeps-trans k l = record {
  valid = l.valid;
  bytes = l.bytes;
  same_head = l.same_head ∙ k.same_head;
  same_callback = l.same_callback ∙ k.same_callback;
}

verdict_wrong :
    (head : ℕ) (bs : List ℕ) → head_len < length bs → word bs 0 ≢ head → verdict head bs ≡ discard
unfolding verdict
verdict_wrong head bs long wrong = ground arith

-- The loop, on packets and a tail.
drain-stream :
    (ps : List NetPacket) (tail : List ℕ) (fuel : ℕ) (p : PacketSync) (out : List (List ℕ))
    → IsValid p
    → view p ≡ stream ps tail
    → AllFrames p.head ps
    → Ready ps tail
    → IsTail p.head tail
    → length ps < fuel
    → (p' : PacketSync) × (drain fuel p out ≡ done (p', out ++ delivered p.has_callback ps))
      × Keeps p p' tail
drain-stream ps tail zero p out v e fs r t h = absurd (omega arith)
drain-stream [] tail (suc fuel) p out v e fs r t h =
    let left : round p ≡ some (leave p) =
      subst (λ w. Follows p w (round p)) (ap (verdict p.head) e ∙ verdict-tail p.head tail t)
        (round_lem p v) in
    (
      p,
      drain_leave fuel p p out left
          ∙ ap (λ l. done (p, l))
              (sym (ap (◌++◌ out) (delivered-nil p.has_callback) ∙ append-nil out)),
      record { valid = v; bytes = e; same_head = refl; same_callback = refl },
    )
drain-stream (q ∷ ps) tail (suc fuel) p out v e fs r t h =
    let n = length (packet_bytes q) in
    let (p', went, k) =
      let follows : Follows p (cut n) (round p) =
        subst (λ w. Follows p w (round p))
          (ap (verdict p.head) e ∙ verdict-packet_bytes p.head q (stream ps tail) fs.0 r.0)
          (round_lem p v) in
      follows in
    let packs = if p.has_callback then take n (view p) ∷ [] else [] in
    let (p'', ended, k') =
      drain-stream ps tail fuel p' (out ++ packs) k.valid
        (k.bytes ∙ ap (drop n) e ∙ drop-append_len n (packet_bytes q) (stream ps tail) refl)
        (subst (λ h. AllFrames h ps) (sym k.same_head) fs.1) r.1
        (subst (λ h. IsTail h tail) (sym k.same_head) t) (omega arith) in
    (
      p'',
      drain_again fuel p p' out packs went
          ∙ ended
          ∙ ap (λ c. done (p'', (out ++ packs) ++ delivered c ps)) k.same_callback
          ∙ ap (λ l. done (p'', l))
              (append_assoc out packs (delivered p.has_callback ps)
                ∙ ap
                    (λ b.
                      out
                      ++ ((if p.has_callback then b ∷ [] else []) ++ delivered p.has_callback ps))
                    (ap (take n) e ∙ take-append_len n (packet_bytes q) (stream ps tail) refl)
                ∙ ap (◌++◌ out) (delivered-cons p.has_callback q ps)),
      Keeps-trans k k',
    )

-- The kept bytes and the new ones make up `ps`, packet after packet, and a tail: the call returns,
-- whatever fuel above the number of packets it has; it has called the callback once for each
-- packet, in order, on exactly its bytes (never, if none is set), and it keeps the tail.
pub on_recv_data-stream :
    (a : Allocator) (p : PacketSync) (bytes : List ℕ) (n : ℕ) (ps : List NetPacket) (tail : List ℕ)
    (fuel : ℕ)
    → IsValid p
    → n ≤ length bytes
    → p.real_packet_len + n < int_limit
    → view p ++ take n bytes ≡ stream ps tail
    → AllFrames p.head ps
    → Ready ps tail
    → IsTail p.head tail
    → length ps < fuel
    → (p' : PacketSync) × (on_recv_data a fuel p bytes n ≡ done (p', delivered p.has_callback ps))
      × Keeps p p' tail
unfolding on_recv_data
on_recv_data-stream a p bytes n ps tail fuel v fits small e fs r t h =
    let (q, appended, k) = append_data-Keeps a p bytes n v fits small in
    let (p', ended, k') =
      drain-stream ps tail fuel q [] k.valid (k.bytes ∙ e)
        (subst (λ h. AllFrames h ps) (sym k.same_head) fs) r
        (subst (λ h. IsTail h tail) (sym k.same_head) t) h in
    (
      p',
      rw (appended, on_recv_data) (ended ∙ ap (λ c. done (p', delivered c ps)) k.same_callback),
      Keeps-trans k k',
    )

-- More bytes than a header, and not the right flag: everything that is kept or has come is thrown
-- away, and nothing is delivered.
pub on_recv_data_discards :
    (a : Allocator) (fuel : ℕ) (p : PacketSync) (bytes : List ℕ) (n : ℕ)
    → IsValid p
    → n ≤ length bytes
    → p.real_packet_len + n < int_limit
    → head_len < length (view p ++ take n bytes)
    → word (view p ++ take n bytes) 0 ≢ p.head
    → 1 < fuel
    → (p' : PacketSync) × (on_recv_data a fuel p bytes n ≡ done (p', [])) × Keeps p p' []
unfolding on_recv_data
on_recv_data_discards a zero p bytes n v fits small long wrong h = absurd (omega arith)
on_recv_data_discards a (suc fuel) p bytes n v fits small long wrong h =
    let (q, appended, k) = append_data-Keeps a p bytes n v fits small in
    let follows : Follows q discard (round q) =
      subst (λ w. Follows q w (round q))
        (ap₂ verdict k.same_head k.bytes ∙ verdict_wrong p.head _ long wrong)
        (round_lem q k.valid) in
    let (r, went, l) = follows in
    let (p', ended, m) =
      drain-stream [] [] fuel r [] l.valid l.bytes tt tt (inl (omega arith)) (omega arith) in
    (
      p',
      rw (appended, on_recv_data)
          (drain_again fuel q r [] [] went
            ∙ ended
            ∙ ap (λ c. done (p', c)) (delivered-nil r.has_callback)),
      Keeps-trans k (Keeps-trans l m),
    )
