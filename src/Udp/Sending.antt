-- ===== src/Udp/Sending.antt =====
-- `CUvUdp`: a datagram from `Send` to `uv_udp_send`.
use test_libuv.Common.{
  ℕ, ◌+◌, ◌≤◌, ◌<◌, ◌≡◌, ◌⊎◌, ◌∙◌, ap, true, none, some, List, [], ◌∷◌, arith, length, take,
  slice_lem, copy_lem, length-take, drop_all, ◌++◌, append-nil, ap₂, take_all,
}
use test_libuv.Event.{UvEvent, UvEventType, plain_event}
use test_libuv.PacketSync.{Allocator}
use test_libuv.Udp.{Udp, pushes, sends, send_to, do_event, sendinl}

-- The event that `Send` pushes.
abbrev pub datagram : (ℕ → ℕ) → List ℕ → ℕ → ℕ → Udp → UvEvent
datagram trunc bytes size addr u = record (plain_event UvEventType.write u.udp_id) {
  buff = some (take size bytes);
  size = size;
  addr = trunc addr;
}

-- The block of the request is filled from end to end.
pub do_event_lem :
    (a : Allocator) (id size addr : ℕ) (bytes : List ℕ) (u : Udp)
    → length bytes ≡ size
    → do_event a
        (record (plain_event UvEventType.write id) { buff = some bytes; size = size; addr = addr })
        u
      ≡ some (sends addr bytes ∷ [])
unfolding do_event sendinl
do_event_lem a id size addr bytes u e =
    rw (copy_lem (a.malloc size) 0 bytes 0 size (omega arith) (omega (arith, a.length-malloc size)))
      (ap (λ base. some (sends addr base ∷ []))
        (ap₂ ◌++◌ (take_all size bytes (omega arith)) (
            drop_all (0 + length (take size bytes)) (a.malloc size)
              (omega (arith, length-take size bytes, a.length-malloc size)))
          ∙ append-nil bytes))

-- `Send` on an attached object, of at most 1400 bytes that are there, answers the size and pushes
-- one event, and when the loop handles this, exactly these bytes go to `uv_udp_send`, once, for the
-- address that the event could hold. More than 1400 bytes fail the assertion.
pub send_to_lem :
    (a : Allocator) (trunc : ℕ → ℕ) (bytes : List ℕ) (size addr : ℕ) (u : Udp)
    → u.loop ≡ true
    → size ≤ length bytes
    → ((size ≤ 1400)
        × (send_to trunc bytes size addr u
            ≡ some (size, pushes (datagram trunc bytes size addr u) ∷ []))
        × (do_event a (datagram trunc bytes size addr u) u
            ≡ some (sends (trunc addr) (take size bytes) ∷ [])))
      ⊎ ((1400 < size) × (send_to trunc bytes size addr u ≡ none))
unfolding send_to
send_to_lem a trunc bytes size addr u h l = ground (
  arith,
  slice_lem bytes 0 size,
  do_event_lem a u.udp_id size (trunc addr) (take size bytes) u
      (omega (arith, length-take size bytes)),
)
