-- ===== src/PacketSync/Loop.antt =====
-- An induction on the rounds of the loop of `OnRecvData`: what every round that goes on keeps,
-- holds when the loop ends.
use test_libuv.Common.{
  ℕ, zero, suc, ◌+◌, ◌-◌, ◌%◌, ◌^◌, ◌≤◌, ◌≡◌, refl, subst, inl, inr, Option, none, some, List, [],
  ◌∷◌, ◌++◌, length, take, drop, Option-cases, if_elim, ltb, leb, ◌==◌, slice, copy, if◌then◌else◌,
}
use test_libuv.Packet.{head_len}
use test_libuv.Packet.Words.{load_word}
use test_libuv.PacketSync.{
  PacketSync, Allocator, Round, again, leave, round, complete, deliver, Outcome, done, fault,
  unfinished, drain, append_data, on_recv_data,
}
use test_libuv.PacketSync.View.{
  IsValid, view, Verdict, wait, discard, cut, verdict, Follows, Keeps, round_lem,
}
use test_libuv.PacketSync.Return.{Shows, verdict-Shows}

-- A round does not change the size of the block.
abbrev SameLen : ℕ → Option Round → Type 0
SameLen n none = Unit
SameLen n (some (again p packs)) = p.len ≡ n
SameLen n (some (leave p)) = p.len ≡ n

deliver-SameLen : (p : PacketSync) (n : ℕ) → SameLen p.len (deliver p n)
unfolding deliver
deliver-SameLen p n = elim (Option-cases (slice p.base 0 n)) [
  | inl e ↦ rw (e, deliver) tt
  | inr (pack, e) ↦ elim (Option-cases (copy p.base 0 p.base n (p.real_packet_len - n))) [
    | inl f ↦ rw (e, deliver, f) tt
    | inr (base, f) ↦ rw (e, deliver, f) refl
  ]
]

complete-SameLen : (p : PacketSync) → SameLen p.len (complete p)
unfolding complete
complete-SameLen p = elim (Option-cases (load_word p.base 8)) [
  | inl e ↦ rw (e, complete) tt
  | inr (size, e) ↦
      let n = (size + head_len) % 2 ^ 32 in
      rw (e, complete)
        (if_elim (SameLen p.len) (leb n p.real_packet_len) (λ t. deliver-SameLen p n) (λ t. refl))
]

round-SameLen : (p : PacketSync) → SameLen p.len (round p)
unfolding round
round-SameLen p =
    if_elim (SameLen p.len) (ltb head_len p.real_packet_len)
      (λ t. elim (Option-cases (load_word p.base 0)) [
        | inl e ↦ rw (e) tt
        | inr (flag, e) ↦
            rw (e) (if_elim (SameLen p.len) (flag == p.head) (λ h. complete-SameLen p) (λ h. refl))
      ])
      (λ t. refl)

-- A round after which the loop goes on.
pub data Turn (p p' : PacketSync) : List (List ℕ) → Type 0 where
  discards : Keeps p p' [] → p'.len ≡ p.len → Turn p p' []
  cuts :
      {packs : List (List ℕ)} (n : ℕ)
      → n ≤ length (view p)
      → Keeps p p' (drop n (view p))
      → p'.len ≡ p.len
      → packs ≡ (if p.has_callback then take n (view p) ∷ [] else [])
      → Turn p p' packs

module _ (Inv : PacketSync → List (List ℕ) → Type 0) where
  -- The loop has no fault, and what it leaves has the invariant and waits for more bytes.
  abbrev pub Ends : Outcome (PacketSync × List (List ℕ)) → Type 0
  Ends (done (p, out)) = IsValid p × Inv p out × (verdict p.head (view p) ≡ wait)
  Ends fault = ⊥
  Ends unfinished = Unit

  pub drain-Ends :
      ((p p' : PacketSync) (out packs : List (List ℕ))
        → IsValid p
        → Turn p p' packs
        → Inv p out
        → Inv p' (out ++ packs))
      → (fuel : ℕ) (p : PacketSync) (out : List (List ℕ)) → IsValid p
      → Inv p out
      → Ends (drain fuel p out)
  unfolding drain
  drain-Ends keep zero p out v h = tt
  drain-Ends keep (suc fuel) p out v h =
      go (verdict p.head (view p)) refl (round_lem p v) (verdict-Shows p.head (view p))
        (drain-Ends keep fuel)
    where
      Goes : Type 0
      Goes =
          (q : PacketSync) (out' : List (List ℕ))
          → IsValid q
          → Inv q out'
          → Ends (drain fuel q out')

      further :
          (p' : PacketSync) (packs : List (List ℕ))
          → round p ≡ some (again p' packs)
          → IsValid p'
          → (p'.len ≡ p.len → Turn p p' packs)
          → Goes
          → Ends (drain (suc fuel) p out)
      further p' packs e k turn ih =
          rw (e, drain)
            (ih p' (out ++ packs) k
              (keep p p' out packs v (turn (subst (SameLen p.len) e (round-SameLen p))) h))

      go :
          (w : Verdict)
          → verdict p.head (view p) ≡ w
          → Follows p w (round p)
          → Shows p.head (view p) w
          → Goes
          → Ends (drain (suc fuel) p out)
      go wait w e s ih = rw (e, drain) (v, h, w)
      go discard w (p', e, k) s ih = further p' [] e k.valid (λ l. discards k l) ih
      go (cut n) w (p', e, k) s ih = further p' _ e k.valid (λ l. cuts n s.3 k l refl) ih

  -- The same of a call that returns, when the invariant holds after `AppendData`.
  pub on_recv_data-Ends :
      ((p p' : PacketSync) (out packs : List (List ℕ))
        → IsValid p
        → Turn p p' packs
        → Inv p out
        → Inv p' (out ++ packs))
      → (a : Allocator) (fuel : ℕ) (p p' q : PacketSync) (bytes : List ℕ) (n : ℕ)
        (packs : List (List ℕ))
      → append_data a p bytes n ≡ some p'
      → IsValid p'
      → Inv p' []
      → on_recv_data a fuel p bytes n ≡ done (q, packs)
      → IsValid q × Inv q packs × (verdict q.head (view q) ≡ wait)
  unfolding on_recv_data
  on_recv_data-Ends keep a fuel p p' q bytes n packs appended v h e =
      subst Ends
        (subst (λ o. elim o [ none ↦ fault | some r ↦ drain fuel r [] ] ≡ done (q, packs)) appended
          e)
        (drain-Ends keep fuel p' [] v h)
