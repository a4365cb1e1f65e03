-- ===== src/PacketSync/Bounds.antt =====
-- `OnRecvData` by numbers: what it keeps, what it hands out, and how large its block becomes.
use test_libuv.Common.{
  ℕ, ◌+◌, ◌≤◌, ◌<◌, ◌≡◌, refl, ap, subst, ◌∙◌, ◌⊎◌, inl, inr, Bool, Option, none, some, List, [],
  ◌∷◌, ◌++◌, arith, length, take, length-drop, length-take, length-append, Option-cases, ltb, copy,
  lt→ltb, if◌then◌else◌,
}
use test_libuv.Packet.{head_len}
use test_libuv.PacketSync.{PacketSync, Allocator, done, on_recv_data, append_data, grow, int_limit}
use test_libuv.PacketSync.View.{
  IsValid, view, word, announced, wait, verdict, append_data-Keeps, length-view,
}
use test_libuv.PacketSync.Return.{Reaches, IsEmptyPacket, on_recv_data_ends}
use test_libuv.PacketSync.Loop.{Turn, discards, cuts, on_recv_data-Ends}

-- The bytes in a list of packets.
unfoldable pub total : List (List ℕ) → ℕ
total [] = 0
total (x ∷ xs) = length x + total xs

total-append : (xs ys : List (List ℕ)) → total (xs ++ ys) ≡ total xs + total ys
unfolding total
total-append [] ys = omega arith
total-append (x ∷ xs) ys = omega (arith, total-append xs ys)

-- What is left when the loop ends: too little for a header and a byte, or the first part of a
-- packet.
abbrev pub Waits : ℕ → List ℕ → Type 0
Waits head bs = (length bs ≤ head_len) ⊎ ((word bs 0 ≡ head) × (length bs < announced bs))

verdict-Waits : (head : ℕ) (bs : List ℕ) → verdict head bs ≡ wait → Waits head bs
unfolding verdict
verdict-Waits head bs h = ground (arith, h)

-- What the loop keeps, from `p` on, with the packets handed out.
record Bounded (p p' : PacketSync) (packs : List (List ℕ)) : Type 0 where
  same_len : p'.len ≡ p.len
  bytes : total packs + p'.real_packet_len ≤ p.real_packet_len

total-if : (c : Bool) (x : List ℕ) → total (if c then x ∷ [] else []) ≤ length x
unfolding total
total-if c x = ground arith

Turn-total :
    {p p' : PacketSync} {packs : List (List ℕ)}
    → IsValid p
    → Turn p p' packs
    → (p'.len ≡ p.len) × (total packs + p'.real_packet_len ≤ p.real_packet_len)
unfolding total
Turn-total {p} {p'} v (discards k l) =
    (l, omega (arith, length-view p v, length-view p' k.valid, ap length k.bytes))
Turn-total {p} {p'} v (cuts n fits k l e) = (
  l,
  omega (
    arith,
    ap total e,
    total-if p.has_callback (take n (view p)),
    length-take n (view p),
    length-view p v,
    length-view p' k.valid,
    ap length k.bytes,
    length-drop n (view p),
    fits,
  ),
)

Turn-Bounded :
    {p p' : PacketSync} (q : PacketSync) (out : List (List ℕ)) {packs : List (List ℕ)}
    → IsValid p
    → Turn p p' packs
    → Bounded q p out
    → Bounded q p' (out ++ packs)
unfolding total
Turn-Bounded q out {packs} v turn h =
    let (l, less) = Turn-total v turn in
    record {
      same_len = l ∙ h.same_len;
      bytes = omega (arith, h.bytes, less, total-append out packs);
    }

-- The size of the block once there is room for `n` more bytes.
abbrev pub room_for : PacketSync → ℕ → ℕ
room_for p n = if ltb p.len (p.real_packet_len + n) then p.real_packet_len + n else p.len

abbrev LenIs : ℕ → Option PacketSync → Type 0
LenIs m none = Unit
LenIs m (some q) = q.len ≡ m

grow_len : (a : Allocator) (p : PacketSync) (n : ℕ) → (grow a p n).len ≡ room_for p n
unfolding grow
grow_len a p n = ground arith

append_data-LenIs :
    (a : Allocator) (p : PacketSync) (bytes : List ℕ) (n : ℕ)
    → p.real_packet_len + n < int_limit
    → LenIs (room_for p n) (append_data a p bytes n)
unfolding append_data
append_data-LenIs a p bytes n small =
    let q = grow a p n in
    elim (Option-cases (copy q.base q.real_packet_len bytes 0 n)) [
      | inl e ↦ rw (lt→ltb _ _ small, e) tt
      | inr (base, e) ↦ rw (lt→ltb _ _ small, e) (grow_len a p n)
    ]

-- From any valid object and for any bytes, with fuel above the number of bytes to look at, the loop
-- comes to a right header whose packet has the wrapped size 0, or the call returns, and then: what
-- it keeps is at most a header, or begins with a right header and is shorter than the packet that
-- this announces; the bytes handed out and those kept are together at most those that there were;
-- and the block has grown to the bytes that there were, if it was smaller, and is else unchanged.
pub on_recv_data_bounds :
    (a : Allocator) (fuel : ℕ) (p : PacketSync) (bytes : List ℕ) (n : ℕ)
    → IsValid p
    → n ≤ length bytes
    → p.real_packet_len + n < int_limit
    → p.real_packet_len + n < fuel
    → ((p' : PacketSync) × (packs : List (List ℕ)) × (on_recv_data a fuel p bytes n
          ≡ done (p', packs))
        × Waits p'.head (view p')
        × (total packs + p'.real_packet_len ≤ p.real_packet_len + n)
        × (p'.len ≡ room_for p n))
      ⊎ ((p' : PacketSync) × (q : PacketSync) × (append_data a p bytes n ≡ some p')
          × Reaches p' q
          × IsEmptyPacket q.head (view q))
unfolding total
on_recv_data_bounds a fuel p bytes n v fits small h =
    let (p', appended, k) = append_data-Keeps a p bytes n v fits small in
    let count : p'.real_packet_len ≡ p.real_packet_len + n = omega (
      arith,
      length-view p v,
      length-view p' k.valid,
      ap length k.bytes,
      length-append (view p) (take n bytes),
      length-take n bytes,
    ) in
    elim (on_recv_data_ends a fuel p bytes n v fits small h) [
      | inr stuck ↦ inr stuck
      | inl (q, packs, e) ↦
          let (fine, b, waits) =
            on_recv_data-Ends (Bounded p') (λ r r' out packs' w turn. Turn-Bounded p' out w turn) a
              fuel p p' q bytes n packs appended k.valid
              (record { same_len = refl; bytes = omega arith }) e in
          inl (
            q,
            packs,
            e,
            verdict-Waits q.head (view q) waits,
            omega (arith, b.bytes, count),
            b.same_len
                ∙ subst (LenIs (room_for p n)) appended (append_data-LenIs a p bytes n small),
          )
    ]
