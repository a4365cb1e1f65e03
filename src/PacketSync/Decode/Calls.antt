-- ===== src/PacketSync/Decode/Calls.antt =====
-- Calls of `OnRecvData` on any chunks do what decoding on plain lists does.
use test_libuv.Common.{
  ℕ, suc, ◌+◌, ◌≤◌, ◌<◌, ◌≡◌, refl, sym, ap, ap₂, subst, ◌∙◌, List, [], ◌∷◌, ◌++◌, arith, length,
  length-append, take_all,
}
use test_libuv.PacketSync.{
  PacketSync, Allocator, Outcome, done, fault, unfinished, drain, on_recv_data, receive_all,
  int_limit,
}
use test_libuv.PacketSync.View.{IsValid, view, Keeps, append_data-Keeps, length-view}
use test_libuv.PacketSync.Stream.{Keeps-trans}
use test_libuv.PacketSync.Chunks.{joined}
use test_libuv.PacketSync.Decode.{
  Parsed, stops, hangs, behind, parse, decode, decode_all, called_on, called_on-append,
  called_on-nil, Agrees,
}
use test_libuv.PacketSync.Decode.Rounds.{Shorter, parse-Shorter, drain-Agrees}

-- Of the object from which a run starts only the callback and the head count.
Agrees-start :
    {p q : PacketSync} {bs : List ℕ} (r : Parsed) (o : Outcome (PacketSync × List (List ℕ)))
    → Keeps p q bs
    → Agrees q [] r o
    → Agrees p [] r o
Agrees-start hangs o k e = e
Agrees-start (stops rest packs) o k (q', e, l) =
    (q', e ∙ ap (λ b. done (q', called_on b packs)) k.same_callback, Keeps-trans k l)

on_recv_data-Agrees :
    (a : Allocator) (fuel : ℕ) (p : PacketSync) (c : List ℕ)
    → IsValid p
    → p.real_packet_len + length c < int_limit
    → p.real_packet_len + length c < fuel
    → Agrees p [] (decode p.head (view p ++ c)) (on_recv_data a fuel p c (length c))
unfolding on_recv_data
on_recv_data-Agrees a fuel p c v small h =
    let (q, appended, k) = append_data-Keeps a p c (length c) v (omega arith) small in
    let bytes : view q ≡ view p ++ c =
      k.bytes ∙ ap (◌++◌ (view p)) (take_all (length c) c (omega arith)) in
    let long = length-append (view p) c in
    rw (appended, on_recv_data)
      (Agrees-start _ _ k (
        subst (λ r. Agrees q [] r (drain fuel q []))
          (ap₂ (parse (suc (length (view p ++ c)))) k.same_head bytes)
          (drain-Agrees (suc (length (view p ++ c))) fuel q [] k.valid
            (omega (arith, ap length bytes))
            (omega (arith, ap length bytes, long, length-view p v)))))

-- What the calls for further chunks add.
abbrev and_more :
    List (List ℕ) → Outcome (PacketSync × List (List ℕ)) → Outcome (PacketSync × List (List ℕ))
and_more packs (done (p, more)) = done (p, packs ++ more)
and_more packs fault = fault
and_more packs unfinished = unfinished

Agrees-and_more :
    {p q : PacketSync} {rest : List ℕ} (packs : List (List ℕ)) (r : Parsed)
    (o : Outcome (PacketSync × List (List ℕ)))
    → Keeps p q rest
    → Agrees q [] r o
    → Agrees p [] (behind packs r) (and_more (called_on p.has_callback packs) o)
Agrees-and_more packs hangs o k e = rw (e) refl
Agrees-and_more {p} packs (stops rest more) o k (q', e, l) = (
  q',
  rw (e) (
      ap (λ b. done (q', called_on p.has_callback packs ++ called_on b more)) k.same_callback
      ∙ ap (λ l. done (q', l)) (sym (called_on-append p.has_callback packs more))),
  Keeps-trans k l,
)

decode_all-stops :
    (head : ℕ) (bs c rest : List ℕ) (cs packs : List (List ℕ))
    → decode head (bs ++ c) ≡ stops rest packs
    → decode_all head bs (c ∷ cs) ≡ behind packs (decode_all head rest cs)
unfolding decode_all
decode_all-stops head bs c rest cs packs e = rw (e, decode_all) refl

decode_all-hangs :
    (head : ℕ) (bs c : List ℕ) (cs : List (List ℕ))
    → decode head (bs ++ c) ≡ hangs
    → decode_all head bs (c ∷ cs) ≡ hangs
unfolding decode_all
decode_all-hangs head bs c cs e = rw (e, decode_all) refl

-- Chunks of any bytes come to a valid object, and with the kept ones they stay below the limit of
-- the size and below the fuel. If decoding them on plain lists stops, every call returns, the
-- callback, if one is set, is called on exactly the packets that it finds, in order, and the object
-- is valid and keeps exactly the rest; if it comes to a packet of the wrapped size 0, a call does
-- not return.
pub receive_all-Agrees :
    (a : Allocator) (fuel : ℕ) (cs : List (List ℕ)) (p : PacketSync)
    → IsValid p
    → p.real_packet_len + length (joined cs) < int_limit
    → p.real_packet_len + length (joined cs) < fuel
    → Agrees p [] (decode_all p.head (view p) cs) (receive_all a fuel p cs)
unfolding receive_all Shorter
receive_all-Agrees a fuel [] p v small h =
    unfold decode_all in
    (
      p,
      ap (λ l. done (p, l)) (sym (called_on-nil p.has_callback)),
      record { valid = v; bytes = refl; same_head = refl; same_callback = refl },
    )
receive_all-Agrees a fuel (c ∷ cs) p v small h =
    go (decode p.head (view p ++ c)) refl
      (on_recv_data-Agrees a fuel p c v (omega (arith, long)) (omega (arith, long)))
      (parse-Shorter _ p.head (view p ++ c)) (receive_all-Agrees a fuel cs)
  where
    long : length (joined (c ∷ cs)) ≡ length c + length (joined cs)
    long = length-append c (joined cs)

    go :
        (now : Parsed)
        → decode p.head (view p ++ c) ≡ now
        → Agrees p [] now (on_recv_data a fuel p c (length c))
        → Shorter (length (view p ++ c)) now
        → ((q : PacketSync)
            → IsValid q
            → q.real_packet_len + length (joined cs) < int_limit
            → q.real_packet_len + length (joined cs) < fuel
            → Agrees q [] (decode_all q.head (view q) cs) (receive_all a fuel q cs))
        → Agrees p [] (decode_all p.head (view p) (c ∷ cs)) (receive_all a fuel p (c ∷ cs))
    go hangs e now s ih = rw (decode_all-hangs p.head (view p) c cs e, now, receive_all) refl
    go (stops rest packs) e (q, now, k) s ih =
        let kept : q.real_packet_len ≤ p.real_packet_len + length c = omega (
          arith,
          length-view q k.valid,
          length-view p v,
          ap length k.bytes,
          length-append (view p) c,
          s,
        ) in
        rw (decode_all-stops p.head (view p) c rest cs packs e, now, receive_all)
          (Agrees-and_more packs (decode_all p.head rest cs) (receive_all a fuel q cs) k (
            subst (λ r. Agrees q [] r (receive_all a fuel q cs))
              (ap₂ (λ (h : ℕ) (bs : List ℕ). decode_all h bs cs) k.same_head k.bytes)
              (ih q k.valid (omega (arith, long, kept)) (omega (arith, long, kept)))))
