-- ===== src/PacketSync/Tests.antt =====
-- Runs of `PacketSync`, and its theorems at them. The allocator fills new bytes with 0.
use test_libuv.Common.{
  ℕ, ◌+◌, ◌≤◌, ◌<◌, ◌≡◌, refl, ◌∙◌, true, some, inl, ◌⊎◌, List, [], ◌∷◌, ◌++◌, arith, length, take,
  drop, replicate, length-replicate, length-take, length-append, take-take, take-append_le, copy,
}
use test_libuv.Packet.{NetPacket, def_pack_head_flag, packet_bytes}
use test_libuv.Packet.Words.{load_word, le_value}
use test_libuv.PacketSync.{
  PacketSync, Allocator, done, unfinished, on_recv_data, receive_all, append_data, drain, round,
  grow,
}
use test_libuv.PacketSync.View.{IsValid, view, Keeps, verdict}
use test_libuv.PacketSync.Decode.{decode_all, parse}
use test_libuv.PacketSync.Decode.Calls.{receive_all-Agrees}
use test_libuv.PacketSync.Chunks.{receive_all-stream}
use test_libuv.PacketSync.Return.{Reaches, IsEmptyPacket, on_recv_data_hangs}
use test_libuv.PacketSync.Bounds.{Waits, total, room_for, on_recv_data_bounds}
use test_libuv.PacketSync.Bytes.{All, AllAll, on_recv_data-All}

zero_realloc : List ℕ → ℕ → List ℕ
zero_realloc block n = take n (block ++ replicate n 0)

length-zero_realloc : (block : List ℕ) (n : ℕ) → length (zero_realloc block n) ≡ n
unfolding zero_realloc
length-zero_realloc block n = omega (
  arith,
  length-take n (block ++ replicate n 0),
  length-append block (replicate n 0),
  length-replicate {A = ℕ} n 0,
)

take-zero_realloc :
    (block : List ℕ) (k n : ℕ)
    → k ≤ length block
    → k ≤ n
    → take k (zero_realloc block n) ≡ take k block
unfolding zero_realloc
take-zero_realloc block k n h l =
    take-take k n (block ++ replicate n 0) l ∙ take-append_le k block (replicate n 0) h

abbrev zeros : Allocator
unfolding zero_realloc
zeros = record {
  malloc = λ n. replicate n 0;
  realloc = zero_realloc;
  length-malloc = λ n. length-replicate n 0;
  length-realloc = length-zero_realloc;
  take-realloc = take-zero_realloc;
}

-- A small object, as one that the constructor has made but for its size.
abbrev small : PacketSync
small = record {
  base = 0 ∷ 0 ∷ 0 ∷ 0 ∷ [];
  len = 4;
  real_packet_len = 0;
  head = def_pack_head_flag;
  has_callback = true;
}

small-IsValid : IsValid small
small-IsValid = record { allocated = refl; kept = omega arith; small = omega arith }

abbrev hello : NetPacket
hello = record { flag = def_pack_head_flag; type = 1000; data_size = 2; body = b'4' ∷ b'2' ∷ [] }

abbrev empty : NetPacket
empty = record { flag = def_pack_head_flag; type = 1001; data_size = 0; body = [] }

abbrev hello_bytes : List ℕ
hello_bytes = 0x32 ∷ 0xD5 ∷ 0x32 ∷ 0xD5 ∷ 0xE8 ∷ 3 ∷ 0 ∷ 0 ∷ 2 ∷ 0 ∷ 0 ∷ 0 ∷ b'4' ∷ b'2' ∷ []

hello_bytes_lem : packet_bytes hello ≡ hello_bytes
unfolding packet_bytes
hello_bytes_lem = refl

-- Twelve bytes of a packet without a body wait for the byte that comes next.
empty_waits :
    on_recv_data zeros 9 small (packet_bytes empty) 12
    ≡ done (record small { base = packet_bytes empty; len = 12; real_packet_len = 12 }, [])
unfolding on_recv_data append_data grow drain round load_word le_value packet_bytes copy
    zero_realloc
empty_waits = refl

abbrev empty_bytes : List ℕ
empty_bytes = 0x32 ∷ 0xD5 ∷ 0x32 ∷ 0xD5 ∷ 0xE9 ∷ 3 ∷ 0 ∷ 0 ∷ 0 ∷ 0 ∷ 0 ∷ 0 ∷ []

-- Four chunks: a packet without a body, the next one cut in its header and in its body, and one
-- byte.
abbrev chunks : List (List ℕ)
chunks =
    empty_bytes
    ∷ (0x32 ∷ 0xD5 ∷ [])
    ∷ (0x32 ∷ 0xD5 ∷ 0xE8 ∷ 3 ∷ 0 ∷ 0 ∷ 2 ∷ 0 ∷ 0 ∷ 0 ∷ b'4' ∷ [])
    ∷ (b'2' ∷ 0x32 ∷ [])
    ∷ []

-- A header that announces 2 ^ 32 - 12 bytes, and one byte more.
abbrev hostile : List ℕ
hostile = 0x32 ∷ 0xD5 ∷ 0x32 ∷ 0xD5 ∷ 0 ∷ 0 ∷ 0 ∷ 0 ∷ 0xF4 ∷ 0xFF ∷ 0xFF ∷ 0xFF ∷ 0 ∷ []

receive_all-stream_example :
    (p' : PacketSync) × (receive_all zeros 5 small chunks
      ≡ done (p', empty_bytes ∷ hello_bytes ∷ []))
    × Keeps small p' (0x32 ∷ [])
unfolding packet_bytes
receive_all-stream_example =
    receive_all-stream zeros 5 chunks small (empty ∷ hello ∷ []) (0x32 ∷ []) small-IsValid
      (omega arith) refl
      (
        record {
          right_head = refl;
          word_head = omega arith;
          right_size = refl;
          word_size = omega arith;
        },
        (
          record {
            right_head = refl;
            word_head = omega arith;
            right_size = refl;
            word_size = omega arith;
          },
          tt,
        ),
      )
      (omega arith, (omega arith, tt)) (inl (omega arith)) (inl (omega arith)) (omega arith)

on_recv_data_bounds_example :
    ((p' : PacketSync) × (packs : List (List ℕ)) × (on_recv_data zeros 20 small hello_bytes 14
        ≡ done (p', packs))
      × Waits p'.head (view p')
      × (total packs + p'.real_packet_len ≤ small.real_packet_len + 14)
      × (p'.len ≡ room_for small 14))
    ⊎ ((p' : PacketSync) × (q : PacketSync) × (append_data zeros small hello_bytes 14 ≡ some p')
        × Reaches p' q
        × IsEmptyPacket q.head (view q))
on_recv_data_bounds_example =
    on_recv_data_bounds zeros 20 small hello_bytes 14 small-IsValid (omega arith) (omega arith)
      (omega arith)

on_recv_data_hangs_example : on_recv_data zeros 1000 small hostile 13 ≡ unfinished
unfolding le_value
on_recv_data_hangs_example =
    on_recv_data_hangs zeros 1000 small hostile 13 small-IsValid (omega arith) (omega arith)
      (omega arith) refl refl

-- A packet in two chunks, the second of which goes on with 13 bytes that are no packet.
receive_all-Agrees_example :
    (p' : PacketSync) × (receive_all zeros 40 small
        (take 5 hello_bytes ∷ (drop 5 hello_bytes ++ replicate 13 7) ∷ [])
      ≡ done (p', hello_bytes ∷ []))
    × Keeps small p' []
unfolding decode_all parse verdict le_value
receive_all-Agrees_example =
    receive_all-Agrees zeros 40 (take 5 hello_bytes ∷ (drop 5 hello_bytes ++ replicate 13 7) ∷ [])
      small small-IsValid (omega arith) (omega arith)

on_recv_data-All_example :
    ((p' : PacketSync) × (packs : List (List ℕ)) × (on_recv_data zeros 20 small hello_bytes 14
        ≡ done (p', packs))
      × All (λ x. x < 256) (view p')
      × AllAll (λ x. x < 256) packs)
    ⊎ ((p' : PacketSync) × (q : PacketSync) × (append_data zeros small hello_bytes 14 ≡ some p')
        × Reaches p' q
        × IsEmptyPacket q.head (view q))
on_recv_data-All_example =
    on_recv_data-All (λ x. x < 256) zeros 20 small hello_bytes 14 small-IsValid (omega arith)
      (omega arith) (omega arith) tt (ground arith)
