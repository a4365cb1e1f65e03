-- ===== src/TestServer/Echo.antt =====
-- What the echo of TestServer/TestServer.cpp sends back, and when it cannot.
use test_libuv.Common.{
  ℕ, ◌+◌, ◌%◌, ◌^◌, ◌≤◌, ◌<◌, ◌≡◌, ◌⊎◌, inl, inr, refl, ap, ◌∙◌, none, some, List, ◌++◌, arith,
  append-nil, length, replicate, length-replicate, slice, copy, slice_lem, copy_lem, copy_fault,
  store, store_lem, overwrite, length-overwrite, take-overwrite, drop_all, ap₂, dec_le, take_all,
}
use test_libuv.Packet.{NetPacket, head_len, packet_bytes, header_bytes}
use test_libuv.Packet.Words.{load_word, le_value-word_bytes}
use test_libuv.PacketSync.Stream.{length-packet_bytes}
use test_libuv.TestServer.{recv_size, reply, on_client_recv}

-- The word at index 8 of a packet is the size of its body.
load_word-packet_bytes :
    (p : NetPacket) → p.data_size < 2 ^ 32 → load_word (packet_bytes p) 8 ≡ some p.data_size
unfolding packet_bytes load_word
load_word-packet_bytes p h =
    rw (slice_lem (packet_bytes p) 8 4 (omega (arith, length-packet_bytes p)))
      (ap some (le_value-word_bytes p.data_size h))

-- Twelve bytes and a body, stored one behind the other in a block of their size.
store_both :
    (header body : List ℕ) (n : ℕ)
    → length header ≡ head_len
    → length body ≡ n
    → (b : List ℕ) × (store (replicate (n + head_len) 0) 0 header ≡ some b)
      × (store b head_len body ≡ some (header ++ body))
store_both header body n e k = (
  headed,
  store_lem blank 0 header (omega (arith, blank_length)),
  store_lem headed head_len body (omega (arith, headed_length))
      ∙ ap some (
          ap₂ (λ front back. front ++ (body ++ back))
            (take-overwrite blank 0 header head_len (omega (arith, blank_length)) (omega arith))
            (drop_all (head_len + length body) headed (omega (arith, headed_length)))
          ∙ ap (λ b. header ++ b) (append-nil body)),
)
  where
    blank : List ℕ
    blank = replicate (n + head_len) 0

    blank_length : length blank ≡ n + head_len
    blank_length = length-replicate (n + head_len) 0

    headed : List ℕ
    headed = overwrite blank 0 header

    headed_length : length headed ≡ n + head_len
    headed_length = length-overwrite blank 0 header (omega (arith, blank_length)) ∙ blank_length

copy-slice :
    (dst src c : List ℕ) (at i n : ℕ)
    → slice src i n ≡ some c
    → copy dst at src i n ≡ store dst at c
unfolding copy
copy-slice dst src c at i n e = rw (e) refl

slice-header : (p : NetPacket) → slice (packet_bytes p) 0 head_len ≡ some (header_bytes p)
unfolding packet_bytes header_bytes
slice-header p = slice_lem (packet_bytes p) 0 head_len (omega (arith, length-packet_bytes p))

slice-body :
    (p : NetPacket)
    → length p.body ≡ p.data_size
    → slice (packet_bytes p) head_len p.data_size ≡ some p.body
unfolding packet_bytes
slice-body p e =
    slice_lem (packet_bytes p) head_len p.data_size (omega (arith, length-packet_bytes p))
    ∙ ap some (take_all p.data_size p.body (omega arith))

reply_fits :
    (array : List ℕ) (p : NetPacket)
    → length p.body ≡ p.data_size
    → p.data_size + head_len < 2 ^ 32
    → p.data_size ≤ length array
    → reply array (packet_bytes p) ≡ some (packet_bytes p)
unfolding reply packet_bytes
reply_fits array p e h l =
    let pack = packet_bytes p in
    let n = p.data_size in
    let (b, first, second) = store_both (header_bytes p) p.body n refl e in
    let wrap : (n + head_len) % 2 ^ 32 ≡ n + head_len = omega arith in
    rw
      (
        load_word-packet_bytes p (omega arith),
        copy_lem array 0 pack head_len n (omega (arith, length-packet_bytes p)) (omega arith),
        wrap,
        copy-slice (replicate (n + head_len) 0) pack (header_bytes p) 0 0 head_len (slice-header p),
        first,
        copy-slice b pack p.body head_len head_len n (slice-body p e),
      )
      second

-- With room in the array the reply is the packet itself, and without it the copy leaves the array.
reply_lem :
    (array : List ℕ) (p : NetPacket)
    → length p.body ≡ p.data_size
    → p.data_size + head_len < 2 ^ 32
    → ((p.data_size ≤ length array) × (reply array (packet_bytes p) ≡ some (packet_bytes p)))
      ⊎ ((length array < p.data_size) × (reply array (packet_bytes p) ≡ none))
unfolding reply
reply_lem array p e h = elim (dec_le p.data_size (length array)) [
  | yes l ↦ inl (l, reply_fits array p e h l)
  | no l ↦ inr (
    omega arith,
    rw
        (
          load_word-packet_bytes p (omega arith),
          copy_fault array 0 (packet_bytes p) head_len p.data_size (omega arith),
        )
        refl,
  )
]

-- The callback sends a packet back as it came, byte for byte, if its body has at most 1024 bytes. The
-- bug: with more, the copy leaves the array on the stack.
pub on_client_recv_lem :
    (p : NetPacket)
    → length p.body ≡ p.data_size
    → p.data_size + head_len < 2 ^ 32
    → ((p.data_size ≤ 1024) × (on_client_recv (packet_bytes p) ≡ some (packet_bytes p)))
      ⊎ ((1024 < p.data_size) × (on_client_recv (packet_bytes p) ≡ none))
unfolding on_client_recv
on_client_recv_lem p e h = reply_lem (replicate recv_size 0) p e h
