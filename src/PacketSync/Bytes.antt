-- ===== src/PacketSync/Bytes.antt =====
-- What kind of bytes `OnRecvData` keeps and hands out: only such as have come.
use test_libuv.Common.{
  ℕ, ◌+◌, ◌≤◌, ◌<◌, ◌≡◌, sym, subst, ◌⊎◌, inl, inr, Bool, true, false, some, List, [], ◌∷◌, ◌++◌,
  length, take, drop, zero, suc, if◌then◌else◌,
}
use test_libuv.PacketSync.{PacketSync, Allocator, done, on_recv_data, append_data, int_limit}
use test_libuv.PacketSync.View.{IsValid, view, append_data-Keeps}
use test_libuv.PacketSync.Loop.{Turn, discards, cuts, on_recv_data-Ends}
use test_libuv.PacketSync.Return.{Reaches, IsEmptyPacket, on_recv_data_ends}

module _ (P : ℕ → Type 0) where
  abbrev pub All : List ℕ → Type 0
  All [] = Unit
  All (x ∷ xs) = P x × All xs

  abbrev pub AllAll : List (List ℕ) → Type 0
  AllAll [] = Unit
  AllAll (xs ∷ xss) = All xs × AllAll xss

  pub All-append : (xs ys : List ℕ) → All xs → All ys → All (xs ++ ys)
  All-append [] ys h k = k
  All-append (x ∷ xs) ys (p, h) k = (p, All-append xs ys h k)

  AllAll-append : (xss yss : List (List ℕ)) → AllAll xss → AllAll yss → AllAll (xss ++ yss)
  AllAll-append [] yss h k = k
  AllAll-append (xs ∷ xss) yss (p, h) k = (p, AllAll-append xss yss h k)

  pub All-take : (n : ℕ) (xs : List ℕ) → All xs → All (take n xs)
  All-take zero xs h = tt
  All-take (suc n) [] h = tt
  All-take (suc n) (x ∷ xs) (p, h) = (p, All-take n xs h)

  All-drop : (n : ℕ) (xs : List ℕ) → All xs → All (drop n xs)
  All-drop zero xs h = h
  All-drop (suc n) [] h = tt
  All-drop (suc n) (x ∷ xs) (p, h) = All-drop n xs h

  All-if : (c : Bool) (xs : List ℕ) → All xs → AllAll (if c then xs ∷ [] else [])
  All-if true xs h = (h, tt)
  All-if false xs h = tt

  -- The kept bytes and those handed out.
  Has : PacketSync → List (List ℕ) → Type 0
  Has p out = All (view p) × AllAll out

  Turn-Has :
      {p p' : PacketSync} (out : List (List ℕ)) {packs : List (List ℕ)}
      → Turn p p' packs
      → Has p out
      → Has p' (out ++ packs)
  unfolding Has
  Turn-Has out (discards k l) (h, o) = (subst All (sym k.bytes) tt, AllAll-append out [] o tt)
  Turn-Has {p} out (cuts n fits k l e) (h, o) = (
    subst All (sym k.bytes) (All-drop n (view p) h),
    AllAll-append out _ o
        (subst AllAll (sym e) (All-if p.has_callback (take n (view p)) (All-take n (view p) h))),
  )

  -- Whatever holds of each kept and each new byte, holds of each byte that is handed out and of
  -- each that is kept then. With fuel above the number of bytes to look at the call returns so, or
  -- its loop comes to a right header whose packet has the wrapped size 0.
  pub on_recv_data-All :
      (a : Allocator) (fuel : ℕ) (p : PacketSync) (bytes : List ℕ) (n : ℕ)
      → IsValid p
      → n ≤ length bytes
      → p.real_packet_len + n < int_limit
      → p.real_packet_len + n < fuel
      → All (view p)
      → All bytes
      → ((p' : PacketSync) × (packs : List (List ℕ)) × (on_recv_data a fuel p bytes n
            ≡ done (p', packs))
          × All (view p')
          × AllAll packs)
        ⊎ ((p' : PacketSync) × (q : PacketSync) × (append_data a p bytes n ≡ some p')
            × Reaches p' q
            × IsEmptyPacket q.head (view q))
  unfolding Has
  on_recv_data-All a fuel p bytes n v fits small enough h new =
      let (p', appended, k) = append_data-Keeps a p bytes n v fits small in
      let has =
        subst All (sym k.bytes) (All-append (view p) (take n bytes) h (All-take n bytes new)) in
      elim (on_recv_data_ends a fuel p bytes n v fits small enough) [
        | inr stuck ↦ inr stuck
        | inl (q, packs, e) ↦
            let (fine, (kept, out), waits) =
              on_recv_data-Ends Has (λ r r' out packs' w turn. Turn-Has out turn) a fuel p p' q
                bytes n packs appended k.valid (has, tt) e in
            inl (q, packs, e, kept, out)
      ]
