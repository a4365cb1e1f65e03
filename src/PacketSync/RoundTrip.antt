-- ===== src/PacketSync/RoundTrip.antt =====
-- From `PacketData` of the client to the callback of the server.
use test_libuv.Common.{
  ℕ, ◌+◌, ◌≤◌, ◌<◌, ◌≡◌, sym, ap, ◌∙◌, Bool, true, inl, some, List, [], ◌∷◌, ◌++◌, append-nil,
  arith, length, take, take_all, length-take, map, if◌then◌else◌,
}
use test_libuv.Packet.{NetPacket, head_len, def_pack_head_flag, packet_bytes, packet_data}
use test_libuv.Packet.Build.{client_packet, packet_data_lem}
use test_libuv.PacketSync.{PacketSync, Allocator, done, on_recv_data, int_limit}
use test_libuv.PacketSync.View.{IsValid, view, Keeps, length-view}
use test_libuv.PacketSync.Stream.{on_recv_data-stream, length-packet_bytes}

-- An object with the common head flag that keeps no bytes is handed what `PacketData` built of at
-- least one byte: the callback is called exactly once, on all the bytes of that packet, and nothing
-- is kept.
pub packet_data-on_recv_data :
    (a : Allocator) (p : PacketSync) (client_id : ℕ) (bytes : List ℕ) (n : ℕ)
    → IsValid p
    → view p ≡ []
    → p.head ≡ def_pack_head_flag
    → p.has_callback ≡ true
    → 0 < n
    → n ≤ length bytes
    → n + head_len < int_limit
    → (buffer : List ℕ) × (p' : PacketSync) × (packet_data client_id bytes n ≡ some buffer)
      × (on_recv_data a 2 p buffer (length buffer)
          ≡ done (p', packet_bytes (client_packet client_id bytes n) ∷ []))
      × Keeps p p' []
packet_data-on_recv_data a p client_id bytes n v none_kept right_head cb some_bytes fits small =
    let (p', ended, k) =
      on_recv_data-stream a p buffer (length buffer) (q ∷ []) [] 2 v (omega arith)
        (omega (arith, length-view p v, ap length none_kept, buffer_length))
        (ap (λ u. u ++ take (length buffer) buffer) none_kept
          ∙ take_all (length buffer) buffer (omega arith)
          ∙ sym (append-nil buffer))
        (
          record {
            right_head = sym right_head;
            word_head = omega arith;
            right_size = body_length;
            word_size = omega arith;
          },
          tt,
        )
        (omega (arith, body_length), tt) (inl (omega arith)) (omega arith) in
    (
      buffer,
      p',
      packet_data_lem client_id bytes n fits (omega arith),
      ended ∙ ap (λ (c : Bool). done (p', if c then map packet_bytes (q ∷ []) else [])) cb,
      k,
    )
  where
    q : NetPacket
    q = client_packet client_id bytes n

    buffer : List ℕ
    buffer = packet_bytes q

    body_length : n ≡ length (take n bytes)
    body_length = omega (arith, length-take n bytes)

    buffer_length : length buffer ≡ n + head_len
    buffer_length = omega (arith, length-packet_bytes q, body_length)
