-- ===== src/Packet.antt =====
-- The wire format of uv/Packet.h: `NetPacket` (`PackHeader`, packed), four-byte words in the byte
-- order of the machines the program is built for (little-endian), and `PacketData` of
-- TestClient/TestClient.cpp, which builds a packet. A byte is a number below 256; words are numbers
-- below 2 ^ 32.
pub mod Words
pub mod Build
use test_libuv.Common.{
  ℕ, ◌+◌, ◌%◌, ◌^◌, List, [], ◌++◌, Option, some, ◌>>=◌, length, replicate, store, copy,
}
use Words.{word_bytes}

-- `NET_PACKAGE_HEADLEN`, three words.
abbrev pub head_len : ℕ
head_len = 12

-- `DEF_PACK_HEAD_FLAG`.
abbrev pub def_pack_head_flag : ℕ
def_pack_head_flag = 0xD532D532

pub record NetPacket : Type 0 where
  pub flag : ℕ
  pub type : ℕ
  pub data_size : ℕ
  pub body : List ℕ

-- The bytes of the three words.
unfoldable pub header_bytes : NetPacket → List ℕ
unfolding word_bytes
header_bytes p = word_bytes p.flag ++ (word_bytes p.type ++ word_bytes p.data_size)

-- The bytes of a packet as it goes over the wire.
unfoldable pub packet_bytes : NetPacket → List ℕ
unfolding header_bytes
packet_bytes p = header_bytes p ++ p.body

-- `PacketData(clientId, data, dataSize)`: `buffer` is a string of `pack_size` zero bytes into which
-- the header and then the data are copied.
unfoldable pub packet_data : ℕ → List ℕ → ℕ → Option (List ℕ)
packet_data client_id bytes data_size =
    let pack_size = (data_size + head_len) % 2 ^ 32 in
    let p : NetPacket = record {
      flag = def_pack_head_flag;
      type = client_id;
      data_size = data_size;
      body = [];
    } in
    do
      buffer ← store (replicate pack_size 0) 0 (header_bytes p)
      copy buffer head_len bytes 0 data_size
