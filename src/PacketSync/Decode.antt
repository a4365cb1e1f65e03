-- ===== src/PacketSync/Decode.antt =====
-- What `OnRecvData` promises, on plain lists of bytes: no block that grows, no rest that moves up.
pub mod Calls
mod Rounds
use test_libuv.Common.{
  ℕ, zero, suc, ◌+◌, ◌≤◌, ◌<◌, ◌≡◌, refl, sym, ap, ap₂, subst, ◌∙◌, Bool, true, false, some, List,
  [], ◌∷◌, ◌++◌, append-nil, append_assoc, if◌then◌else◌, arith, length, take, drop, length-drop,
  length-append, take_all,
}
use test_libuv.PacketSync.{
  PacketSync, Allocator, again, Outcome, done, fault, unfinished, round, drain, on_recv_data,
  receive_all, int_limit,
}
use test_libuv.PacketSync.View.{
  IsValid, view, Verdict, wait, discard, cut, verdict, Keeps, Follows, round_lem, append_data-Keeps,
  drain_again, drain_leave, length-view,
}
use test_libuv.PacketSync.Return.{Shows, verdict-Shows}
use test_libuv.PacketSync.Stream.{Keeps-trans}
use test_libuv.PacketSync.Chunks.{joined, and_then}

-- The bytes that are kept and the packets, or a packet of the wrapped size 0 at the front.
pub data Parsed : Type 0 where
  stops : List ℕ → List (List ℕ) → Parsed
  hangs : Parsed

abbrev pub behind : List (List ℕ) → Parsed → Parsed
behind packs (stops rest more) = stops rest (packs ++ more)
behind packs hangs = hangs

-- With fuel above the number of bytes, one packet after the other. Behind a wrong head nothing is
-- kept.
unfoldable pub parse : ℕ → ℕ → List ℕ → Parsed
parse zero head bs = hangs
parse (suc fuel) head bs = elim (verdict head bs) [
  | wait ↦ stops bs []
  | discard ↦ stops [] []
  | cut zero ↦ hangs
  | cut (suc n) ↦ behind (take (suc n) bs ∷ []) (parse fuel head (drop (suc n) bs))
]

abbrev pub decode : ℕ → List ℕ → Parsed
decode head bs = parse (suc (length bs)) head bs

-- The same over chunks, with the bytes kept before the first.
unfoldable pub decode_all : ℕ → List ℕ → List (List ℕ) → Parsed
decode_all head bs [] = stops bs []
decode_all head bs (c ∷ cs) = elim (decode head (bs ++ c)) [
  | stops rest packs ↦ behind packs (decode_all head rest cs)
  | hangs ↦ hangs
]

-- The callback is called on these, if one is set.
abbrev pub called_on : Bool → List (List ℕ) → List (List ℕ)
called_on has_callback packs = if has_callback then packs else []

pub called_on-append :
    (c : Bool) (ps qs : List (List ℕ)) → called_on c (ps ++ qs) ≡ called_on c ps ++ called_on c qs
called_on-append true ps qs = refl
called_on-append false ps qs = refl

pub called_on-nil : (c : Bool) → called_on c [] ≡ []
called_on-nil true = refl
called_on-nil false = refl

-- A run from `p`, behind what was delivered before, does what the lists say.
abbrev pub Agrees :
    PacketSync → List (List ℕ) → Parsed → Outcome (PacketSync × List (List ℕ)) → Type 0
Agrees p out (stops rest packs) o =
    (p' : PacketSync) × (o ≡ done (p', out ++ called_on p.has_callback packs)) × Keeps p p' rest
Agrees p out hangs o = o ≡ unfinished
