-- ===== src/PacketSync/View.antt =====
-- `PacketSync` seen as the bytes that it keeps: what one round of the loop, and what the copy
-- before it, do to them.
use test_libuv.Common.{
  ℕ, suc, ◌+◌, ◌-◌, ◌%◌, ◌^◌, ◌≤◌, ◌<◌, ◌≡◌, refl, sym, ap, ◌∙◌, Bool, Option, some, List, [], ◌∷◌,
  ◌++◌, arith, ltb, leb, ◌==◌, if◌then◌else◌, Bool-cases, inl, inr, ltb→lt, leb→le, lt→ltb, length,
  take, drop, slice_lem, copy_lem, overwrite, length-overwrite, take-overwrite, length-take,
  length-drop, take-take, take-drop-take, take_all,
}
use test_libuv.Packet.{head_len}
use test_libuv.Packet.Words.{le_value, load_word}
use test_libuv.PacketSync.{
  PacketSync, Allocator, Round, again, leave, round, deliver, complete, drain, done, grow,
  append_data, init, int_limit,
}

-- The block has the size that is noted, and the kept bytes fit into it and into an `int`.
pub record IsValid (p : PacketSync) : Type 0 where
  pub allocated : length p.base ≡ p.len
  pub kept : p.real_packet_len ≤ p.len
  pub small : p.real_packet_len < int_limit

-- The bytes that are kept.
abbrev pub view : PacketSync → List ℕ
view p = take p.real_packet_len p.base

-- The word at index `i`, and the size that a header announces for its packet.
abbrev pub word : List ℕ → ℕ → ℕ
word bs i = le_value (take 4 (drop i bs))

abbrev pub announced : List ℕ → ℕ
announced bs = (word bs 8 + head_len) % 2 ^ 32

-- What a round does with the kept bytes.
pub data Verdict : Type 0 where
  wait : Verdict
  discard : Verdict
  cut : ℕ → Verdict

unfoldable pub verdict : ℕ → List ℕ → Verdict
verdict head bs =
    if ltb head_len (length bs)
    then (if word bs 0 == head
        then (if leb (announced bs) (length bs) then cut (announced bs) else wait)
        else discard)
    else wait

-- A round of the loop on a `p` that keeps `bs`, as the verdict has it.
pub record Keeps (p p' : PacketSync) (bs : List ℕ) : Type 0 where
  pub valid : IsValid p'
  pub bytes : view p' ≡ bs
  pub same_head : p'.head ≡ p.head
  pub same_callback : p'.has_callback ≡ p.has_callback

abbrev pub Follows : PacketSync → Verdict → Option Round → Type 0
Follows p wait o = o ≡ some (leave p)
Follows p discard o = (p' : PacketSync) × (o ≡ some (again p' [])) × Keeps p p' []
Follows p (cut n) o =
    (p' : PacketSync) × (o ≡ some (again p' (if p.has_callback then take n (view p) ∷ [] else [])))
    × Keeps p p' (drop n (view p))

pub length-view : (p : PacketSync) → IsValid p → length (view p) ≡ p.real_packet_len
length-view p v = omega (arith, length-take p.real_packet_len p.base, v.allocated, v.kept)

load_word-view :
    (p : PacketSync) (i : ℕ)
    → IsValid p
    → i + 4 ≤ p.real_packet_len
    → load_word p.base i ≡ some (word (view p) i)
unfolding load_word
load_word-view p i v h = rw (
  slice_lem p.base i 4 (omega (arith, v.allocated, v.kept)),
  take-drop-take i 4 p.real_packet_len p.base h,
)

deliver_lem :
    (p : PacketSync) (n : ℕ) → IsValid p → n ≤ p.real_packet_len → Follows p (cut n) (deliver p n)
unfolding deliver
deliver_lem p n v h =
    let fits : n + (p.real_packet_len - n) ≤ length p.base = omega (arith, v.allocated, v.kept) in
    (
      record p { base = overwrite p.base 0 s; real_packet_len = p.real_packet_len - n },
      rw
          (
            slice_lem p.base 0 n (omega (arith, v.allocated, v.kept)),
            copy_lem p.base 0 p.base n (p.real_packet_len - n) fits (omega arith),
            take-take n p.real_packet_len p.base h,
          )
          refl,
      record {
        valid = record {
          allocated = length-overwrite p.base 0 s (omega (arith, s_length)) ∙ v.allocated;
          kept = omega (arith, v.kept);
          small = omega (arith, v.small);
        };
        bytes =
            take-overwrite p.base 0 s (p.real_packet_len - n) (omega (arith, s_length))
              (omega (arith, s_length))
            ∙ sym (take-drop-take n (p.real_packet_len - n) p.real_packet_len p.base (omega arith))
            ∙ take_all (p.real_packet_len - n) (drop n (view p))
                (omega (arith, length-view p v, length-drop n (view p)));
        same_head = refl;
        same_callback = refl;
      },
    )
  where
    s : List ℕ
    s = take (p.real_packet_len - n) (drop n p.base)

    s_length : length s ≡ p.real_packet_len - n
    s_length = omega (
      arith,
      length-take (p.real_packet_len - n) (drop n p.base),
      length-drop n p.base,
      v.allocated,
      v.kept,
    )

complete_lem :
    (p : PacketSync)
    → IsValid p
    → head_len < p.real_packet_len
    → Follows p
        (if leb (announced (view p)) p.real_packet_len then cut (announced (view p)) else wait)
        (complete p)
unfolding complete
complete_lem p v long =
    rw (load_word-view p 8 v (omega arith))
      (elim (Bool-cases (leb (announced (view p)) p.real_packet_len)) [
        | inl e ↦ rw e (deliver_lem p (announced (view p)) v (leb→le _ _ e))
        | inr e ↦ rw e refl
      ])

pub round_lem : (p : PacketSync) → IsValid p → Follows p (verdict p.head (view p)) (round p)
unfolding round verdict
round_lem p v = elim (Bool-cases (ltb head_len p.real_packet_len)) [
  | inl long ↦
      let long' : head_len < p.real_packet_len = ltb→lt _ _ long in
      rw (length-view p v, long, load_word-view p 0 v (omega arith))
        (elim (Bool-cases (word (view p) 0 == p.head)) [
          | inl e ↦ rw e (complete_lem p v long')
          | inr e ↦ rw e (
            record p { real_packet_len = 0 },
            refl,
            record {
              valid = record { allocated = v.allocated; kept = omega arith; small = omega arith };
              bytes = refl;
              same_head = refl;
              same_callback = refl;
            },
          )
        ])
  | inr short ↦ rw (length-view p v, short) refl
]

-- `grow` makes room for `n` more bytes and keeps those that are there.
record Grown (p q : PacketSync) (n : ℕ) : Type 0 where
  keeps : Keeps p q (view p)
  room : q.real_packet_len + n ≤ q.len
  same_count : q.real_packet_len ≡ p.real_packet_len

grow-Grown :
    (a : Allocator) (p : PacketSync) (n : ℕ)
    → IsValid p
    → p.real_packet_len + n < int_limit
    → Grown p (grow a p n) n
unfolding grow
grow-Grown a p n v small = ground (
  arith,
  a.length-realloc p.base (p.real_packet_len + n),
  a.take-realloc p.base p.real_packet_len (p.real_packet_len + n),
)

-- What `OnRecvData` does before the loop: if the sum fits into an `int` and the array holds the
-- bytes, they stand behind the kept ones.
pub append_data-Keeps :
    (a : Allocator) (p : PacketSync) (bytes : List ℕ) (n : ℕ)
    → IsValid p
    → n ≤ length bytes
    → p.real_packet_len + n < int_limit
    → (p' : PacketSync) × (append_data a p bytes n ≡ some p') × Keeps p p' (view p ++ take n bytes)
unfolding append_data
append_data-Keeps a p bytes n v h small =
    let g = grow-Grown a p n v small in
    let q = grow a p n in
    let room : q.real_packet_len + n ≤ length q.base =
      omega (arith, g.room, g.keeps.valid.allocated) in
    let t = take n bytes in
    let t_length : length t ≡ n = omega (arith, length-take n bytes) in
    (
      record q {
        base = overwrite q.base q.real_packet_len t;
        real_packet_len = q.real_packet_len + n;
      },
      rw (lt→ltb _ _ small, copy_lem q.base q.real_packet_len bytes 0 n (omega arith) room) refl,
      record {
        valid = record {
          allocated =
              length-overwrite q.base q.real_packet_len t (omega (arith, t_length))
              ∙ g.keeps.valid.allocated;
          kept = g.room;
          small = omega (arith, g.same_count);
        };
        bytes =
            take-overwrite q.base q.real_packet_len t (q.real_packet_len + n)
              (omega (arith, t_length)) (omega (arith, t_length))
            ∙ ap (λ u. u ++ t) g.keeps.bytes;
        same_head = g.keeps.same_head;
        same_callback = g.keeps.same_callback;
      },
    )

-- The constructor gives a valid, empty object.
pub init-IsValid :
    (a : Allocator) (packhead : ℕ) (has_callback : Bool)
    → IsValid (init a packhead has_callback) × (view (init a packhead has_callback) ≡ [])
unfolding init
init-IsValid a packhead has_callback =
    (record { allocated = a.length-malloc 4096; kept = omega arith; small = omega arith }, refl)

-- One round of the loop, by what the round does.
module _ (fuel : ℕ) (p p' : PacketSync) (out : List (List ℕ)) where
  pub drain_again :
      (packs : List (List ℕ))
      → round p ≡ some (again p' packs)
      → drain (suc fuel) p out ≡ drain fuel p' (out ++ packs)
  unfolding drain
  drain_again packs e = rw (e, drain)

  pub drain_leave : round p ≡ some (leave p') → drain (suc fuel) p out ≡ done (p', out)
  unfolding drain
  drain_leave e = rw (e, drain)
