-- ===== src/Udp/Outbox.antt =====
-- A `CUvUdp` and its `CLooper` together: the calls of `Send` on the threads of the user, the queue
-- of events, and the calls of `uv_udp_send` on the thread of the loop.
pub mod Order
mod Tests
use test_libuv.Common.{
  ℕ, Bool, true, false, ◌≤◌, ◌≡◌, Option, none, some, List, [], ◌∷◌, ◌++◌, length, take, ◌>>=◌,
}
use test_libuv.Event.{UvEvent}
use test_libuv.PacketSync.{Allocator}
use test_libuv.Looper.{push_all, Looper, push_event}
use test_libuv.Looper
use test_libuv.Udp.{Udp, Effect, pushes, sends, send_to, do_event, bytes_at}

-- An address, and the bytes for it.
abbrev pub Datagram : Type 0
Datagram = ℕ × List ℕ

-- What the effects hand to `uv_udp_send`, and what they push.
pub handed : List Effect → List Datagram
handed [] = []
handed (sends addr bytes ∷ es) = (addr, bytes) ∷ handed es
handed (_ ∷ es) = handed es

pub pushed : List Effect → List UvEvent
pushed [] = []
pushed (pushes e ∷ es) = e ∷ pushed es
pushed (_ ∷ es) = pushed es

-- The datagrams of the events that wait.
pub pending : List UvEvent → List Datagram
pending [] = []
pending (e ∷ es) = (e.addr, bytes_at e.buff) ∷ pending es

-- What was handed to `uv_udp_send` so far; `none` is a copy outside of its block.
module _ (a : Allocator) (u : Udp) where
  -- `DoEvent` of the loop calls `DoEvent` of the object.
  pub handle : UvEvent → Option (List Datagram) → Option (List Datagram)
  unfolding handed
  handle e none = none
  handle e (some w) = elim (do_event a e u) [ none ↦ none | some es ↦ some (w ++ handed es) ]

-- The object, its loop, what `Send` has accepted so far and what `uv_udp_send` was called on so
-- far.
pub record UdpSystem : Type 0 where
  pub endpoint : Udp
  pub looper : Looper
  pub accepted : List Datagram
  pub out : List Datagram

-- What `Send` has accepted when it answers a number of bytes, by whether the object has its loop: the
-- bytes, of which there may be none, for what an event holds of the address.
pub accepts : Bool → (ℕ → ℕ) → ℕ → List ℕ → ℕ → List Datagram
accepts false trunc n bytes addr = []
accepts true trunc n bytes addr = (trunc addr, take n bytes) ∷ []

-- `Send`.
pub send : (ℕ → ℕ) → List ℕ → ℕ → ℕ → UdpSystem → Option UdpSystem
unfolding push_all pushed accepts
send trunc bytes size addr s = do
  (n, es) ← send_to trunc bytes size addr s.endpoint
  some (record s {
    looper = push_all (pushed es) s.looper;
    accepted = s.accepted ++ accepts s.endpoint.loop trunc n bytes addr;
  })

-- The loop wakes and handles its queue.
pub woken : Allocator → UdpSystem → Option UdpSystem
unfolding handle
woken a s =
    let (l, r) = Looper.do_event (handle a s.endpoint) s.looper (some s.out) in
    elim r [ none ↦ none | some w ↦ some (record s { looper = l; out = w }) ]

-- Any thread sends bytes that are there, the loop wakes, or some other method changes the object;
-- none of these pushes an event.
pub data Step (a : Allocator) (trunc : ℕ → ℕ) : UdpSystem → UdpSystem → Type 0 where
  sent :
      {s t : UdpSystem} (bytes : List ℕ) (size addr : ℕ)
      → size ≤ length bytes
      → send trunc bytes size addr s ≡ some t
      → Step a trunc s t
  wakes : {s t : UdpSystem} → woken a s ≡ some t → Step a trunc s t
  changes : {s : UdpSystem} (u : Udp) → Step a trunc s (record s { endpoint = u })

pub data Reach (a : Allocator) (trunc : ℕ → ℕ) (s : UdpSystem) : UdpSystem → Type 0 where
  here : Reach a trunc s s
  next : {t u : UdpSystem} → Reach a trunc s t → Step a trunc t u → Reach a trunc s u

-- The state before anything was sent.
abbrev pub quiet : Udp → Looper → UdpSystem
quiet u l = record { endpoint = u; looper = record l { event_queue = [] }; accepted = []; out = [] }
