-- ===== src/PacketSync/Return.antt =====
-- Whether `OnRecvData` returns. A header that announces 2 ^ 32 - 12 bytes makes `pack_size` wrap to
-- 0: the loop then hands out an empty packet for ever.
use test_libuv.Common.{
  ℕ, zero, suc, ◌+◌, ◌-◌, ◌^◌, ◌≤◌, ◌<◌, ◌≡◌, refl, sym, ap, subst, ◌∙◌, ◌⊎◌, inl, inr, some, List,
  [], ◌++◌, arith, length, take, length-drop, length-take, length-append,
}
use test_libuv.Packet.{head_len}
use test_libuv.PacketSync.{
  PacketSync, Allocator, again, done, unfinished, round, drain, on_recv_data, append_data,
  int_limit,
}
use test_libuv.PacketSync.View.{
  IsValid, view, word, announced, Verdict, wait, discard, cut, verdict, Follows, round_lem,
  drain_again, drain_leave, append_data-Keeps, length-view,
}

-- The loop comes from the first state to the second.
pub data Reaches : PacketSync → PacketSync → Type 0 where
  here : {p : PacketSync} → Reaches p p
  there :
      {p q r : PacketSync} (packs : List (List ℕ))
      → round p ≡ some (again q packs)
      → Reaches q r
      → Reaches p r

-- A header with the right flag stands at the front, and its packet has the wrapped size 0.
abbrev pub IsEmptyPacket : ℕ → List ℕ → Type 0
IsEmptyPacket head bs = (head_len < length bs) × (word bs 0 ≡ head) × (announced bs ≡ 0)

pub record Returns (fuel : ℕ) (p : PacketSync) (out : List (List ℕ)) : Type 0 where
  pub left : PacketSync
  pub packs : List (List ℕ)
  pub returned : drain fuel p out ≡ done (left, packs)

-- What a verdict says of the bytes.
abbrev pub Shows : ℕ → List ℕ → Verdict → Type 0
Shows head bs wait = Unit
Shows head bs discard = head_len < length bs
Shows head bs (cut n) =
    (head_len < length bs) × (word bs 0 ≡ head) × (announced bs ≡ n) × (n ≤ length bs)

pub verdict-Shows : (head : ℕ) (bs : List ℕ) → Shows head bs (verdict head bs)
unfolding verdict
verdict-Shows head bs = ground arith

verdict_empty : (head : ℕ) (bs : List ℕ) → IsEmptyPacket head bs → verdict head bs ≡ cut 0
unfolding verdict
verdict_empty head bs h = ground arith

drain_ends :
    (fuel : ℕ) (p : PacketSync) (out : List (List ℕ))
    → IsValid p
    → p.real_packet_len < fuel
    → Returns fuel p out ⊎ ((q : PacketSync) × Reaches p q × IsEmptyPacket q.head (view q))
drain_ends zero p out v h = absurd (omega arith)
drain_ends (suc fuel) p out v h =
    go (verdict p.head (view p)) (round_lem p v) (verdict-Shows p.head (view p)) (drain_ends fuel)
  where
    Goal : (f : ℕ) (p : PacketSync) (out : List (List ℕ)) → Type 0
    Goal f p out =
        Returns f p out ⊎ ((q : PacketSync) × Reaches p q × IsEmptyPacket q.head (view q))

    further :
        (p' : PacketSync) (packs : List (List ℕ))
        → round p ≡ some (again p' packs)
        → Goal fuel p' (out ++ packs)
        → Goal (suc fuel) p out
    further p' packs e (inl r) = inl (record {
      left = r.left;
      packs = r.packs;
      returned = drain_again fuel p p' out packs e ∙ r.returned;
    })
    further p' packs e (inr (q, r, z)) = inr (q, there packs e r, z)

    go :
        (w : Verdict)
        → Follows p w (round p)
        → Shows p.head (view p) w
        → ((p' : PacketSync) (out' : List (List ℕ))
            → IsValid p'
            → p'.real_packet_len < fuel
            → Goal fuel p' out')
        → Goal (suc fuel) p out
    go wait e s ih = inl (record { left = p; packs = out; returned = drain_leave fuel p p out e })
    go discard (p', e, k) s ih = further p' [] e (
        ih p' _ k.valid (omega (arith, length-view p v, length-view p' k.valid, ap length k.bytes)))
    go (cut zero) (p', e, k) s ih = inr (p, here, (s.0, s.1, s.2))
    go (cut (suc n)) (p', e, k) s ih = further p' _ e (
        ih p' _ k.valid (
          omega (
            arith,
            length-view p v,
            length-view p' k.valid,
            ap length k.bytes,
            length-drop (suc n) (view p),
            s.3,
          )))

-- From any valid object and for any bytes, with fuel above the number of bytes to look at, the call
-- returns, or its loop comes to a right header whose packet has the wrapped size 0.
pub on_recv_data_ends :
    (a : Allocator) (fuel : ℕ) (p : PacketSync) (bytes : List ℕ) (n : ℕ)
    → IsValid p
    → n ≤ length bytes
    → p.real_packet_len + n < int_limit
    → p.real_packet_len + n < fuel
    → ((p' : PacketSync) × (packs : List (List ℕ)) × (on_recv_data a fuel p bytes n
          ≡ done (p', packs)))
      ⊎ ((p' : PacketSync) × (q : PacketSync) × (append_data a p bytes n ≡ some p')
          × Reaches p' q
          × IsEmptyPacket q.head (view q))
unfolding on_recv_data
on_recv_data_ends a fuel p bytes n v fits small h =
    let (p', appended, k) = append_data-Keeps a p bytes n v fits small in
    let count : p'.real_packet_len ≤ p.real_packet_len + n = omega (
      arith,
      length-view p v,
      length-view p' k.valid,
      ap length k.bytes,
      length-append (view p) (take n bytes),
      length-take n bytes,
    ) in
    elim (drain_ends fuel p' [] k.valid (omega arith)) [
      | inl r ↦ inl (r.left, r.packs, rw (appended, on_recv_data) r.returned)
      | inr (q, r, z) ↦ inr (p', q, appended, r, z)
    ]

drain_empty :
    (fuel : ℕ) (p : PacketSync) (out : List (List ℕ))
    → IsValid p
    → IsEmptyPacket p.head (view p)
    → drain fuel p out ≡ unfinished
drain_empty zero p out v z = unfold drain in refl
drain_empty (suc fuel) p out v z =
    let follows : Follows p (cut 0) (round p) =
      subst (λ w. Follows p w (round p)) (verdict_empty p.head (view p) z) (round_lem p v) in
    let (p', e, k) = follows in
    drain_again fuel p p' out _ e
    ∙ drain_empty fuel p' _ k.valid (
        subst (λ h. IsEmptyPacket h (view p')) (sym k.same_head)
          (subst (IsEmptyPacket p.head) (sym k.bytes) z))

-- The bug: once the kept bytes and the new ones begin with a header of the right flag, at least one
-- more byte, and a data size of 2 ^ 32 - 12, the call does not return for any fuel.
pub on_recv_data_hangs :
    (a : Allocator) (fuel : ℕ) (p : PacketSync) (bytes : List ℕ) (n : ℕ)
    → IsValid p
    → n ≤ length bytes
    → p.real_packet_len + n < int_limit
    → head_len < length (view p ++ take n bytes)
    → word (view p ++ take n bytes) 0 ≡ p.head
    → word (view p ++ take n bytes) 8 ≡ 2 ^ 32 - head_len
    → on_recv_data a fuel p bytes n ≡ unfinished
unfolding on_recv_data
on_recv_data_hangs a fuel p bytes n v fits small long flag size =
    let (p', appended, k) = append_data-Keeps a p bytes n v fits small in
    let empty : IsEmptyPacket p.head (view p ++ take n bytes) = (long, flag, omega (arith, size)) in
    rw (appended, on_recv_data)
      (drain_empty fuel p' [] k.valid (
        subst (λ h. IsEmptyPacket h (view p')) (sym k.same_head)
          (subst (IsEmptyPacket p.head) (sym k.bytes) empty)))
