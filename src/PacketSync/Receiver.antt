-- ===== src/PacketSync/Receiver.antt =====
-- An object that hands the bytes of its `AfterRecv` to a `PacketSync` of its own, as the client and
-- the sessions of the server do: what it tells its user of a stream that libuv delivers in any
-- chunks. A call with `nread` 0 is a chunk without bytes.
use test_libuv.Common.{
  ℕ, suc, ◌+◌, ◌<◌, ◌≡◌, refl, sym, ap, subst, ◌∙◌, ◌⊎◌, inl, inr, List, [], ◌∷◌, ◌++◌, arith,
  length, ℤ, pos,
}
use test_libuv.Packet.{NetPacket}
use test_libuv.PacketSync.{
  PacketSync, Allocator, Outcome, done, fault, unfinished, on_recv_data, receive_all, int_limit,
}
use test_libuv.PacketSync.View.{IsValid, view, Keeps}
use test_libuv.PacketSync.Stream.{AllFrames, stream, IsTail, Ready, delivered}
use test_libuv.PacketSync.Chunks.{joined, and_then, receive_all-stream}

-- `told` is what the user is told of the packets of one call.
pub record Receiver (a : Allocator) (fuel : ℕ) : Type 1 where
  pub S : Type 0
  pub E : Type 0
  pub packet : S → PacketSync
  pub with_packet : PacketSync → S → S
  pub told : S → List (List ℕ) → List E
  pub after_recv : List ℕ → ℤ → S → Outcome (S × List E)
  pub after_recv-zero : (buf : List ℕ) (s : S) → after_recv buf (pos 0) s ≡ done (s, [])
  pub after_recv-suc :
      (buf : List ℕ) (n : ℕ) (s : S) (p : PacketSync) (packs : List (List ℕ))
      → on_recv_data a fuel (packet s) buf (suc n) ≡ done (p, packs)
      → after_recv buf (pos (suc n)) s ≡ done (with_packet p s, told s packs)
  pub packet-with_packet : (p : PacketSync) (s : S) → packet (with_packet p s) ≡ p
  pub with_packet-packet : (s : S) → with_packet (packet s) s ≡ s
  pub with_packet-with_packet :
      (p q : PacketSync) (s : S) → with_packet q (with_packet p s) ≡ with_packet q s
  pub told-nil : (s : S) → told s [] ≡ []
  pub told-append : (s : S) (xs ys : List (List ℕ)) → told s (xs ++ ys) ≡ told s xs ++ told s ys
  pub told-with_packet :
      (p : PacketSync) (s : S) (xs : List (List ℕ)) → told (with_packet p s) xs ≡ told s xs

abbrev nonempty : List (List ℕ) → List (List ℕ)
nonempty [] = []
nonempty ([] ∷ cs) = nonempty cs
nonempty ((b ∷ c) ∷ cs) = (b ∷ c) ∷ nonempty cs

joined-nonempty : (cs : List (List ℕ)) → joined (nonempty cs) ≡ joined cs
joined-nonempty [] = refl
joined-nonempty ([] ∷ cs) = joined-nonempty cs
joined-nonempty ((b ∷ c) ∷ cs) = ap (λ l. b ∷ (c ++ l)) (joined-nonempty cs)

pub Outcome-cases {ℓ} :
    {A : Type ℓ} (o : Outcome A) → ((x : A) × (o ≡ done x)) ⊎ ((o ≡ fault) ⊎ (o ≡ unfinished))
Outcome-cases (done x) = inl (x, refl)
Outcome-cases fault = inr (inl refl)
Outcome-cases unfinished = inr (inr refl)

fault-ne-done {ℓ} : {A : Type ℓ} {x : A} → ¬ (fault ≡ done x)
fault-ne-done e = cc

unfinished-ne-done {ℓ} : {A : Type ℓ} {x : A} → ¬ (unfinished ≡ done x)
unfinished-ne-done e = cc

-- The calls of `OnRecvData` for the first chunk and for the others, from the call for all.
receive_all_parts :
    (a : Allocator) (fuel : ℕ) (p p'' : PacketSync) (c : List ℕ) (cs packs : List (List ℕ))
    → receive_all a fuel p (c ∷ cs) ≡ done (p'', packs)
    → (p' : PacketSync) × (now : List (List ℕ)) × (later : List (List ℕ)) × (on_recv_data a fuel p c
          (length c)
        ≡ done (p', now))
      × (receive_all a fuel p' cs ≡ done (p'', later))
      × (packs ≡ now ++ later)
unfolding receive_all
receive_all_parts a fuel p p'' c cs packs e =
    elim (Outcome-cases (on_recv_data a fuel p c (length c))) [
      | inl ((p', now), e1) ↦ elim (Outcome-cases (receive_all a fuel p' cs)) [
        | inl ((q, later), e2) ↦
            let whole = sym (and_then a fuel c cs p p' q now later e1 e2) ∙ e in
            (p', now, later, e1, e2 ∙ ap (λ r. done (r, later)) (cc), cc)
        | inr (inl e2) ↦ absurd (fault-ne-done (rw (e1, receive_all, e2) at e))
        | inr (inr e2) ↦ absurd (unfinished-ne-done (rw (e1, receive_all, e2) at e))
      ]
      | inr (inl e1) ↦ absurd (fault-ne-done (rw (e1, receive_all) at e))
      | inr (inr e1) ↦ absurd (unfinished-ne-done (rw (e1, receive_all) at e))
    ]

receive_all_nil :
    (a : Allocator) (fuel : ℕ) (p q : PacketSync) (packs : List (List ℕ))
    → receive_all a fuel p [] ≡ done (q, packs)
    → (p ≡ q) × ([] ≡ packs)
unfolding receive_all
receive_all_nil a fuel p q packs e = (cc, cc)

module _ {a : Allocator} {fuel : ℕ} (r : Receiver a fuel) where
  open r use {
    S, E, packet, with_packet, told, after_recv, after_recv-zero, after_recv-suc,
    packet-with_packet, with_packet-packet, with_packet-with_packet, told-nil, told-append,
    told-with_packet,
  }

  -- The calls of `AfterRecv` for the chunks, and all that the user is told.
  pub after_recvs : List (List ℕ) → S → Outcome (S × List E)
  after_recvs [] s = done (s, [])
  after_recvs (c ∷ cs) s = elim (after_recv c (pos (length c)) s) [
    | done (s', es) ↦ elim (after_recvs cs s') [
      | done (s'', more) ↦ done (s'', es ++ more)
      | fault ↦ fault
      | unfinished ↦ unfinished
    ]
    | fault ↦ fault
    | unfinished ↦ unfinished
  ]

  after_recvs_lem :
      (cs : List (List ℕ)) (s : S) (p : PacketSync) (packs : List (List ℕ))
      → receive_all a fuel (packet s) (nonempty cs) ≡ done (p, packs)
      → after_recvs cs s ≡ done (with_packet p s, told s packs)
  unfolding after_recvs
  after_recvs_lem [] s p packs e =
      let (same, none) = receive_all_nil a fuel (packet s) p packs e in
      rw (← same, ← none, with_packet-packet s, told-nil s) refl
  after_recvs_lem ([] ∷ cs) s p packs e =
      rw (after_recvs, after_recv-zero [] s, after_recvs, after_recvs_lem cs s p packs e)
  after_recvs_lem ((b ∷ c) ∷ cs) s p packs e =
      let (p', now, later, e1, e2, both) =
        receive_all_parts a fuel (packet s) p (b ∷ c) (nonempty cs) packs e in
      let s' = with_packet p' s in
      let rest = after_recvs_lem cs s' p later (
        subst (λ q. receive_all a fuel q (nonempty cs) ≡ done (p, later))
          (sym (packet-with_packet p' s)) e2) in
      rw (
        after_recv-suc (b ∷ c) (length c) s p' now e1,
        after_recvs,
        rest,
        with_packet-with_packet,
        both,
        told-append,
        told-with_packet,
      )

  -- A stream of packets, behind the header of each of which a byte follows, comes in chunks of any
  -- size: every call returns, the user is told of each of them once, in order, and the rest is
  -- kept; of the object nothing changes but its `PacketSync`.
  pub after_recvs-stream :
      (cs : List (List ℕ)) (s : S) (ps : List NetPacket) (tail : List ℕ)
      → IsValid (packet s)
      → (packet s).real_packet_len + length (joined cs) < int_limit
      → view (packet s) ++ joined cs ≡ stream ps tail
      → AllFrames (packet s).head ps
      → Ready ps tail
      → IsTail (packet s).head tail
      → IsTail (packet s).head (view (packet s))
      → length ps < fuel
      → (p : PacketSync) × (after_recvs cs s
          ≡ done (with_packet p s, told s (delivered (packet s).has_callback ps)))
        × Keeps (packet s) p tail
  after_recvs-stream cs s ps tail v small e fs bs t kept h =
      let same = joined-nonempty cs in
      let (p, all, k) =
        receive_all-stream a fuel (nonempty cs) (packet s) ps tail v (omega (arith, ap length same))
          (ap (◌++◌ (view (packet s))) same ∙ e) fs bs t kept h in
      (p, after_recvs_lem cs s p (delivered (packet s).has_callback ps) all, k)
