-- ===== src/Packet/Build.antt =====
-- `PacketData` builds the packet that its arguments name.
use test_libuv.Common.{
  ℕ, ◌+◌, ◌%◌, ◌^◌, ◌≤◌, ◌<◌, ◌≡◌, refl, ap, ◌∙◌, some, List, ◌++◌, arith, append-nil, length, take,
  replicate, length-replicate, length-take, drop_all, store, copy, copy_lem, overwrite, store_lem,
  length-overwrite, take-overwrite, ap₂, ◌>>=◌,
}
use test_libuv.Packet.{
  NetPacket, head_len, def_pack_head_flag, header_bytes, packet_bytes, packet_data,
}

abbrev pub client_packet : ℕ → List ℕ → ℕ → NetPacket
client_packet client_id bytes n = record {
  flag = def_pack_head_flag;
  type = client_id;
  data_size = n;
  body = take n bytes;
}

pub length-header_bytes : (p : NetPacket) → length (header_bytes p) ≡ head_len
unfolding header_bytes
length-header_bytes p = refl

-- With the data at hand and a size that does not wrap, both copies stay inside `buffer`, and it
-- holds the packet: the head flag, the client's id as the type, the size, the data.
pub packet_data_lem :
    (client_id : ℕ) (bytes : List ℕ) (n : ℕ)
    → n ≤ length bytes
    → n + head_len < 2 ^ 32
    → packet_data client_id bytes n ≡ some (packet_bytes (client_packet client_id bytes n))
unfolding packet_data packet_bytes header_bytes
packet_data_lem client_id bytes n fits small =
    let whole : (n + head_len) % 2 ^ 32 ≡ n + head_len = omega arith in
    ap (λ k. store (replicate k 0) 0 header >>= λ buffer. copy buffer head_len bytes 0 n) whole
    ∙ ap (λ o. o >>= λ buffer. copy buffer head_len bytes 0 n)
        (store_lem blank 0 header (omega (arith, blank_length)))
    ∙ copy_lem headed head_len bytes 0 n (omega arith) (omega (arith, headed_length))
    ∙ ap some (
        ap₂ (λ front back. front ++ (take n bytes ++ back))
          (take-overwrite blank 0 header head_len (omega (arith, blank_length)) (omega arith))
          (drop_all (head_len + length (take n bytes)) headed
            (omega (arith, headed_length, length-take n bytes)))
        ∙ ap (λ b. header ++ b) (append-nil (take n bytes)))
  where
    header : List ℕ
    header = header_bytes (client_packet client_id bytes n)

    blank : List ℕ
    blank = replicate (n + head_len) 0

    blank_length : length blank ≡ n + head_len
    blank_length = length-replicate (n + head_len) 0

    headed : List ℕ
    headed = overwrite blank 0 header

    headed_length : length headed ≡ n + head_len
    headed_length = length-overwrite blank 0 header (omega (arith, blank_length)) ∙ blank_length
