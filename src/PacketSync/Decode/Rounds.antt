-- ===== src/PacketSync/Decode/Rounds.antt =====
-- The loop of `OnRecvData` finds the packets that decoding on plain lists finds.
use test_libuv.Common.{
  ℕ, zero, suc, ◌+◌, ◌≤◌, ◌<◌, ◌≡◌, refl, sym, ap, ap₂, subst, ◌∙◌, List, [], ◌∷◌, ◌++◌, append-nil,
  append_assoc, arith, length, take, drop, length-drop,
}
use test_libuv.PacketSync.{PacketSync, Outcome, done, unfinished, round, drain}
use test_libuv.PacketSync.View.{
  IsValid, view, Verdict, wait, discard, cut, verdict, Keeps, Follows, round_lem, drain_again,
  drain_leave,
}
use test_libuv.PacketSync.Return.{Shows, verdict-Shows}
use test_libuv.PacketSync.Decode.{
  Parsed, stops, hangs, behind, parse, called_on, called_on-append, called_on-nil, Agrees,
}

drain_hangs :
    (fuel : ℕ) (p : PacketSync) (out : List (List ℕ))
    → IsValid p
    → verdict p.head (view p) ≡ cut 0
    → drain fuel p out ≡ unfinished
drain_hangs zero p out v e = unfold drain in refl
drain_hangs (suc fuel) p out v e =
    let follows : Follows p (cut 0) (round p) =
      subst (λ w. Follows p w (round p)) e (round_lem p v) in
    let (p', went, k) = follows in
    drain_again fuel p p' out _ went
    ∙ drain_hangs fuel p' _ k.valid (ap₂ verdict k.same_head k.bytes ∙ e)

-- A round that hands out a packet, and then the rest.
Agrees-behind :
    (r : Parsed) (p p' : PacketSync) (out : List (List ℕ)) (pack : List ℕ)
    (o : Outcome (PacketSync × List (List ℕ)))
    → p'.head ≡ p.head
    → p'.has_callback ≡ p.has_callback
    → Agrees p' (out ++ called_on p.has_callback (pack ∷ [])) r o
    → Agrees p out (behind (pack ∷ []) r) o
Agrees-behind hangs p p' out pack o h c e = e
Agrees-behind (stops rest packs) p p' out pack o h c (q, e, k) = (
  q,
  e
      ∙ ap (λ b. done (q, (out ++ called_on p.has_callback (pack ∷ [])) ++ called_on b packs)) c
      ∙ ap (λ l. done (q, l))
          (append_assoc out _ _
            ∙ ap (◌++◌ out) (sym (called_on-append p.has_callback (pack ∷ []) packs))),
  record {
    valid = k.valid;
    bytes = k.bytes;
    same_head = k.same_head ∙ h;
    same_callback = k.same_callback ∙ c;
  },
)

drain-waits :
    (fuel : ℕ) (p q : PacketSync) (out : List (List ℕ)) (bs : List ℕ)
    → 0 < fuel
    → verdict q.head (view q) ≡ wait
    → Keeps p q bs
    → Agrees p out (stops bs []) (drain fuel q out)
drain-waits zero p q out bs h e k = absurd (omega arith)
drain-waits (suc fuel) p q out bs h e k =
    let follows : Follows q wait (round q) =
      subst (λ w. Follows q w (round q)) e (round_lem q k.valid) in
    (
      q,
      drain_leave fuel q q out follows
          ∙ ap (λ l. done (q, l))
              (sym (ap (◌++◌ out) (called_on-nil p.has_callback) ∙ append-nil out)),
      k,
    )

-- The loop does what the lists say.
pub drain-Agrees :
    (k fuel : ℕ) (p : PacketSync) (out : List (List ℕ))
    → IsValid p
    → length (view p) < k
    → length (view p) < fuel
    → Agrees p out (parse k p.head (view p)) (drain fuel p out)
unfolding parse
drain-Agrees zero fuel p out v h l = absurd (omega arith)
drain-Agrees (suc k) zero p out v h l = absurd (omega arith)
drain-Agrees (suc k) (suc fuel) p out v h l =
    go (verdict p.head (view p)) refl (round_lem p v) (verdict-Shows p.head (view p))
      (drain-Agrees k fuel)
  where
    Further : Type 0
    Further =
        (q : PacketSync) (out' : List (List ℕ))
        → IsValid q
        → length (view q) < k
        → length (view q) < fuel
        → Agrees q out' (parse k q.head (view q)) (drain fuel q out')

    go :
        (w : Verdict)
        → verdict p.head (view p) ≡ w
        → Follows p w (round p)
        → Shows p.head (view p) w
        → Further
        → Agrees p out (parse (suc k) p.head (view p)) (drain (suc fuel) p out)
    go wait e w s ih =
        rw (e, parse)
          (drain-waits (suc fuel) p p out (view p) (omega arith) e
            (record { valid = v; bytes = refl; same_head = refl; same_callback = refl }))
    go discard e (p', w, m) s ih =
        rw (e, parse)
          (subst (Agrees p out (stops [] []))
            (sym (drain_again fuel p p' out [] w ∙ ap (drain fuel p') (append-nil out)))
            (drain-waits fuel p p' out [] (omega arith)
              (ap (verdict p'.head) m.bytes ∙ (unfold verdict in refl)) m))
    go (cut zero) e w s ih = rw (e, parse) (drain_hangs (suc fuel) p out v e)
    go (cut (suc n)) e (p', w, m) s ih =
        let pack = take (suc n) (view p) in
        let shorter : length (view p') + suc n ≡ length (view p) =
          omega (arith, ap length m.bytes, length-drop (suc n) (view p), s.3) in
        rw (e, parse)
          (subst (Agrees p out (behind (pack ∷ []) (parse k p.head (drop (suc n) (view p)))))
            (sym (drain_again fuel p p' out _ w))
            (Agrees-behind _ p p' out pack _ m.same_head m.same_callback (
              subst
                (λ r.
                  Agrees p' (out ++ called_on p.has_callback (pack ∷ [])) r
                    (drain fuel p' (out ++ called_on p.has_callback (pack ∷ []))))
                (ap₂ (parse k) m.same_head m.bytes)
                (ih p' _ m.valid (omega (arith, shorter)) (omega (arith, shorter))))))

-- A shorter rest is left.
unfoldable pub Shorter : ℕ → Parsed → Type 0
Shorter n (stops rest packs) = length rest ≤ n
Shorter n hangs = Unit

behind-Shorter :
    (m n : ℕ) (packs : List (List ℕ)) (r : Parsed)
    → m ≤ n
    → Shorter m r
    → Shorter n (behind packs r)
unfolding Shorter
behind-Shorter m n packs (stops rest more) h s = omega arith
behind-Shorter m n packs hangs h s = tt

pub parse-Shorter : (k head : ℕ) (bs : List ℕ) → Shorter (length bs) (parse k head bs)
unfolding parse Shorter
parse-Shorter zero head bs = tt
parse-Shorter (suc k) head bs = go (verdict head bs) refl (parse-Shorter k head)
  where
    go :
        (w : Verdict)
        → verdict head bs ≡ w
        → ((cs : List ℕ) → Shorter (length cs) (parse k head cs))
        → Shorter (length bs) (parse (suc k) head bs)
    go wait e ih = rw (e, parse) (omega arith)
    go discard e ih = rw (e, parse) (omega arith)
    go (cut zero) e ih = rw (e, parse) tt
    go (cut (suc n)) e ih =
        rw (e, parse)
          (behind-Shorter (length (drop (suc n) bs)) (length bs) (take (suc n) bs ∷ [])
            (parse k head (drop (suc n) bs)) (omega (arith, length-drop (suc n) bs))
            (ih (drop (suc n) bs)))
