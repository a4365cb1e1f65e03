-- ===== src/Udp.antt =====
-- `CUvUdp` of uv/Udp.h and uv/Udp.cpp. Calls of libuv are effects or return codes; an address is a
-- number that stands for a `sockaddr`, and `trunc` is what the copy of a `sockaddr` of fixed size
-- keeps of it.
pub mod Sending
pub mod Outbox
pub mod Receiving
mod Tests
use test_libuv.Common.{
  ℕ, zero, suc, ◌≤◌, Bool, true, false, not, Option, none, some, List, [], ◌∷◌, leb, if◌then◌else◌,
  ℤ, pos, negsuc, is_zero, is_neg, replicate, length, take, slice, copy, assert, ◌>>=◌, ◌>>◌,
}
use test_libuv.Event.{UvEvent, UvEventType, create_uv_event}
use test_libuv.PacketSync.{Allocator}

-- `PACK_UDP_SIZE`.
abbrev pub pack_udp_size : ℕ
pack_udp_size = 1400

-- `_loop` is null or not; `errmsg_` is empty or `GetUVError` of a code.
pub record Udp : Type 0 where
  pub udp_id : ℕ
  pub loop : Bool
  pub errmsg : Option ℤ
  pub has_recv_cb : Bool

pub data Effect : Type 0 where
  pushes : UvEvent → Effect
  closes_loop : Effect
  closes_handle : Effect
  binds : Bool → Effect
  sets_broadcast : Effect
  starts_recv : Effect
  sends : ℕ → List ℕ → Effect
  calls_recv : List ℕ → ℕ → Effect

-- The constructor.
unfoldable pub init : ℕ → Udp
init id = record { udp_id = id; loop = false; errmsg = none; has_recv_cb = false }

-- `AttachLooper`, with the code of `uv_udp_init`.
unfoldable pub attach_looper : ℤ → Udp → Bool × Udp
attach_looper code u =
    let u' = record u { loop = true } in
    if not (is_zero code) then (false, record u' { errmsg = some code }) else (true, u')

-- `Send` to a `sockaddr`: the returned size.
unfoldable pub send_to : (ℕ → ℕ) → List ℕ → ℕ → ℕ → Udp → Option (ℕ × List Effect)
unfolding create_uv_event
send_to trunc bytes size addr u = do
  assert (leb size pack_udp_size)
  (if u.loop
      then (do
        e ← create_uv_event UvEventType.write (some bytes) size u.udp_id
        some (size, pushes (record e { addr = trunc addr }) ∷ []))
      else some (0, []))

-- `Send` to an ip and a port: `to_addr` is what `uv_ip4_addr` or `uv_ip6_addr` makes of them. Their
-- code is not looked at.
unfoldable pub send :
    (ℕ → ℕ)
    → (List ℕ → ℕ → Bool → ℕ)
    → List ℕ
    → ℕ
    → List ℕ
    → ℕ
    → Bool
    → Udp
    → Option (ℕ × List Effect)
unfolding send_to
send trunc to_addr bytes size ip port v6 u = do
  assert (leb size pack_udp_size)
  send_to trunc bytes size (to_addr ip port v6) u

abbrev is_positive : ℤ → Bool
is_positive (pos zero) = false
is_positive (pos (suc n)) = true
is_positive (negsuc n) = false

-- `Bind`, with the codes of the address, of `uv_udp_bind` or `uv_udp_set_broadcast`, and of
-- `uv_udp_recv_start`. That of the address is overwritten.
unfoldable pub bind : ℤ → ℤ → ℤ → ℤ → Bool → Udp → Bool × Udp × List Effect
bind addr_code bind_code recv_code port v6 u =
    let bound = if is_positive port then binds v6 else sets_broadcast in
    if not (is_zero bind_code)
    then (false, record u { errmsg = some bind_code }, bound ∷ [])
    else if not (is_zero recv_code)
    then (false, record u { errmsg = some recv_code }, bound ∷ starts_recv ∷ [])
    else (true, u, bound ∷ starts_recv ∷ [])

-- `_read_buf` of `AllocUdpCtx`, which `AllocBufferForRecv` hands to libuv each time.
pub alloc_udp_ctx : Allocator → List ℕ
alloc_udp_ctx a = a.malloc pack_udp_size

pub alloc_buffer_for_recv : Allocator → List ℕ
unfolding alloc_udp_ctx
alloc_buffer_for_recv a = alloc_udp_ctx a

-- `AfterRecv` on the one read buffer.
unfoldable pub after_recv : List ℕ → ℤ → ℕ → Udp → Option (List Effect)
unfolding slice
after_recv buf (negsuc n) addr u = some []
after_recv buf (pos zero) addr u = some []
after_recv buf (pos (suc n)) addr u =
    if u.has_recv_cb
    then (do bytes ← slice buf 0 (suc n); some (calls_recv bytes addr ∷ []))
    else some []

-- `send_param`: the block `buf_.base` and `buf_.len`; and `AllocSendParam`.
pub record SendParam : Type 0 where
  pub base : List ℕ
  pub len : ℕ

abbrev pub alloc_send_param : Allocator → ℕ → SendParam
alloc_send_param a size = record { base = a.malloc size; len = size }

-- `sendinl`: the bytes go into a block of their own size. The code of `uv_udp_send` decides only who
-- frees it.
unfoldable pub sendinl : Allocator → ℕ → List ℕ → ℕ → Udp → Option (List Effect)
sendinl a addr buff size u = do
  base ← copy (alloc_send_param a size).base 0 buff 0 size
  some (sends addr base ∷ [])

abbrev pub is_write : UvEventType → Bool
is_write UvEventType.write = true
is_write _ = false

-- The bytes behind a pointer of an event: none behind a null pointer.
abbrev pub bytes_at : Option (List ℕ) → List ℕ
bytes_at none = []
bytes_at (some bytes) = bytes

-- `DoEvent`. The event is freed at its end.
unfoldable pub do_event : Allocator → UvEvent → Udp → Option (List Effect)
unfolding sendinl
do_event a e u = if is_write e.type then sendinl a e.addr (bytes_at e.buff) e.size u else some []

-- `OnHandleClose`, by what `uv_is_closing` says, and `Close`.
pub on_handle_close : Bool → Udp → List Effect
on_handle_close is_closing u = if not is_closing then closes_handle ∷ [] else []

unfoldable pub close : Udp → List Effect
close u = if u.loop then closes_loop ∷ [] else []

-- The destructor.
unfoldable pub destroy : Udp → List Effect
unfolding close
destroy u = close u
