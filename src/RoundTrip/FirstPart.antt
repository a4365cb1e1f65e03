-- ===== src/RoundTrip/FirstPart.antt =====
-- A receiver of which a first part of a stream has come.
use test_libuv.Common.{
  ℕ, ◌<◌, ◌≡◌, ◌∙◌, refl, sym, ap, true, List, [], ◌∷◌, ◌++◌, map, append-nil, append_assoc, arith,
  length, length-append, inl,
}
use mathlib.Core.List.{map-append}
use test_libuv.Packet.{NetPacket, packet_bytes}
use test_libuv.PacketSync.{PacketSync, Allocator, done, int_limit}
use test_libuv.PacketSync.View.{IsValid, view, length-view}
use test_libuv.PacketSync.Stream.{AllFrames, stream, delivered}
use test_libuv.PacketSync.Chunks.{
  AllBodies, AllBodies-Ready, joined, Split, Split-stream, nothing_came,
}
use test_libuv.PacketSync.Receiver.{Receiver, after_recvs, after_recvs-stream}

pub joined-append : (xs ys : List (List ℕ)) → joined (xs ++ ys) ≡ joined xs ++ joined ys
joined-append [] ys = refl
joined-append (x ∷ xs) ys =
    ap (◌++◌ x) (joined-append xs ys) ∙ sym (append_assoc x (joined xs) (joined ys))

pub joined-map : (ps : List NetPacket) → joined (map packet_bytes ps) ≡ stream ps []
joined-map [] = refl
joined-map (p ∷ ps) = ap (◌++◌ (packet_bytes p)) (joined-map ps)

-- What the packets are that have arrived, and those that have not.
record Arrived (head : ℕ) (ps : List NetPacket) (arrived rest : List ℕ) : Type 0 where
  split : Split head ps [] arrived rest
  all_there : rest ≡ [] → split.coming ≡ []

split_lem :
    (head : ℕ) (ps : List NetPacket) (arrived rest : List ℕ)
    → arrived ++ rest ≡ stream ps []
    → AllFrames head ps
    → AllBodies ps
    → Arrived head ps arrived rest
split_lem head ps arrived rest e fs bs =
    let s =
      Split-stream head ps [] arrived rest e fs (AllBodies-Ready ps [] bs) (inl (omega arith)) in
    record {
      split = s;
      all_there = λ none_left.
          (nothing_came head s.coming [] s.kept
            (sym (append-nil s.kept) ∙ ap (◌++◌ s.kept) (sym none_left) ∙ s.to_come) s.coming_frames
            s.coming_ready s.is_tail).0;
    }

-- A receiver that had got nothing, and has a callback, gets a first part of these packets in any
-- chunks: every call returns, and its user is told of a first part of the packets; of all, when
-- nothing is left to come.
pub first_part :
    {a : Allocator} {fuel : ℕ} (r : Receiver a fuel) (ps : List NetPacket) (cs : List (List ℕ))
    (rest : List ℕ) (s : r.S)
    → joined cs ++ rest ≡ stream ps []
    → AllFrames (r.packet s).head ps
    → AllBodies ps
    → IsValid (r.packet s)
    → view (r.packet s) ≡ []
    → (r.packet s).has_callback ≡ true
    → length (joined cs) < int_limit
    → length ps < fuel
    → (p : PacketSync) × (got : List (List ℕ)) × (later : List (List ℕ)) × (after_recvs r cs s
        ≡ done (r.with_packet p s, r.told s got))
      × (map packet_bytes ps ≡ got ++ later)
      × (rest ≡ [] → later ≡ [])
first_part r ps cs rest s came fs bs valid empty called small enough =
    let arrived = split_lem (r.packet s).head ps (joined cs) rest came fs bs in
    let p = arrived.split in
    let (q, all, k) =
      after_recvs-stream r cs s p.came p.kept valid
        (omega (arith, length-view (r.packet s) valid, ap length empty))
        (ap (λ b. b ++ joined cs) empty ∙ p.so_far) p.came_frames p.came_ready p.is_tail
        (inl (omega (arith, ap length empty)))
        (omega (arith, ap length p.packets, length-append p.came p.coming)) in
    (
      q,
      map packet_bytes p.came,
      map packet_bytes p.coming,
      all ∙ ap (λ b. done (r.with_packet q s, r.told s (delivered b p.came))) called,
      ap (map packet_bytes) p.packets ∙ map-append packet_bytes p.came p.coming,
      λ none_left. ap (map packet_bytes) (arrived.all_there none_left),
    )
