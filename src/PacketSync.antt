-- ===== src/PacketSync.antt =====
-- `PacketSync` of uv/Packet.h, which cuts a byte stream into packets. The fields `read_data.base`,
-- `read_data.len`, `real_packet_len` and `_head` are `base`, `len`, `real_packet_len` and `head`;
-- `has_callback` says whether `_func_package_cb` is set. A call of the callback is an entry of the
-- list of delivered packets: the bytes that it is handed, `pack_size` of them from `base` on.
--
-- `malloc` and `realloc` are parameters. The loop of `OnRecvData` takes fuel, and an `Outcome` tells
-- a call that returns from a fault (a copy that leaves its block, an `int` that overflows) and from
-- one that has not returned yet.
pub mod View
pub mod Stream
pub mod Chunks
pub mod Decode
pub mod Safety
pub mod Return
pub mod RoundTrip
pub mod Receiver
pub mod Bounds
pub mod Loop
pub mod Bytes
pub mod Plain
mod Tests
use test_libuv.Common.{
  ℕ, zero, suc, ◌+◌, ◌-◌, ◌%◌, ◌^◌, ◌≤◌, ◌≡◌, Bool, true, false, Option, none, some, List, [], ◌∷◌,
  ◌++◌, ltb, leb, ◌==◌, if◌then◌else◌, ◌>>=◌, ◌>>◌, assert, length, take, slice, copy,
}
use test_libuv.Packet.{head_len}
use test_libuv.Packet.Words.{load_word}

-- The allocator of the C library, when it does not fail. A new byte has no known value.
pub record Allocator : Type 0 where
  pub malloc : ℕ → List ℕ
  pub realloc : List ℕ → ℕ → List ℕ
  pub length-malloc : (n : ℕ) → length (malloc n) ≡ n
  pub length-realloc : (block : List ℕ) (n : ℕ) → length (realloc block n) ≡ n
  pub take-realloc :
      (block : List ℕ) (k n : ℕ)
      → k ≤ length block
      → k ≤ n
      → take k (realloc block n) ≡ take k block

pub record PacketSync : Type 0 where
  pub base : List ℕ
  pub len : ℕ
  pub real_packet_len : ℕ
  pub head : ℕ
  pub has_callback : Bool

pub data Outcome {ℓ} (A : Type ℓ) : Type ℓ where
  done : A → Outcome A
  fault : Outcome A
  unfinished : Outcome A

-- `PACK_BUFFER_SIZE`.
abbrev pub pack_buffer_size : ℕ
pack_buffer_size = 4096

-- The largest `int`, and one more.
abbrev pub int_limit : ℕ
int_limit = 2 ^ 31

-- One round of the `while` loop: the loop goes on, with what the callback was called on, or is left.
pub data Round : Type 0 where
  again : PacketSync → List (List ℕ) → Round
  leave : PacketSync → Round

-- A packet of `pack_size` bytes stands complete at the front: it goes to the callback, and the rest
-- moves up.
pub deliver : PacketSync → ℕ → Option Round
deliver p pack_size = do
  pack ← slice p.base 0 pack_size
  base ← copy p.base 0 p.base pack_size (p.real_packet_len - pack_size)
  some (
      again (record p { base = base; real_packet_len = p.real_packet_len - pack_size })
        (if p.has_callback then pack ∷ [] else []))

-- The round where the head flag is right: whether the packet is complete.
pub complete : PacketSync → Option Round
complete p = do
  data_size ← load_word p.base 8
  let pack_size = (data_size + head_len) % 2 ^ 32
  if leb pack_size p.real_packet_len then deliver p pack_size else some (leave p)

-- The body of the loop under its test, `real_packet_len > NET_PACKAGE_HEADLEN`.
unfoldable pub round : PacketSync → Option Round
unfolding complete deliver
round p =
    if ltb head_len p.real_packet_len
    then (do
      head_flag ← load_word p.base 0
      if head_flag == p.head
          then complete p
          else some (again (record p { real_packet_len = 0 }) []))
    else some (leave p)

-- The loop, with the packets delivered so far.
pub drain : ℕ → PacketSync → List (List ℕ) → Outcome (PacketSync × List (List ℕ))
drain zero p out = unfinished
drain (suc fuel) p out = elim (round p) [
  | none ↦ fault
  | some (again p' packs) ↦ drain fuel p' (out ++ packs)
  | some (leave p') ↦ done (p', out)
]

module _ (a : Allocator) where
  -- The constructor and `Init`, which sets the packet head.
  pub init : ℕ → Bool → PacketSync
  init packhead has_callback = record {
    base = a.malloc pack_buffer_size;
    len = pack_buffer_size;
    real_packet_len = 0;
    head = packhead;
    has_callback = has_callback;
  }

  pub grow : PacketSync → ℕ → PacketSync
  grow p n =
      if ltb p.len (p.real_packet_len + n)
      then record p { base = a.realloc p.base (p.real_packet_len + n); len = p.real_packet_len + n }
      else p

  -- What `OnRecvData` does before the loop: the `n` bytes at `bytes` go behind those that are kept.
  pub append_data : PacketSync → List ℕ → ℕ → Option PacketSync
  append_data p bytes n = do
    assert (ltb (p.real_packet_len + n) int_limit)
    let p' = grow p n
    base ← copy p'.base p'.real_packet_len bytes 0 n
    some (record p' { base = base; real_packet_len = p'.real_packet_len + n })

  pub on_recv_data : ℕ → PacketSync → List ℕ → ℕ → Outcome (PacketSync × List (List ℕ))
  on_recv_data fuel p bytes n = elim (append_data p bytes n) [
    | none ↦ fault
    | some p' ↦ drain fuel p' []
  ]

  -- The calls that hand over a stream, chunk by chunk, and all that they deliver.
  pub receive_all : ℕ → PacketSync → List (List ℕ) → Outcome (PacketSync × List (List ℕ))
  receive_all fuel p [] = done (p, [])
  receive_all fuel p (c ∷ cs) = elim (on_recv_data fuel p c (length c)) [
    | done (p', packs) ↦ elim (receive_all fuel p' cs) [
      | done (p'', more) ↦ done (p'', packs ++ more)
      | fault ↦ fault
      | unfinished ↦ unfinished
    ]
    | fault ↦ fault
    | unfinished ↦ unfinished
  ]
