-- ===== src/TcpClient/Outbox.antt =====
-- A `CTcpClient` and its `CLooper` together: the calls of `Send` on the threads of the user, the
-- queue of events, and the calls of `uv_write` on the thread of the loop.
pub mod Handle
pub mod Order
mod Tests
use test_libuv.Common.{
  ℕ, zero, suc, not, ◌&&◌, ◌||◌, ◌+◌, ◌≤◌, ◌≡◌, refl, sym, ap, subst, ◌∙◌, inl, inr, Bool, true,
  false, Option, none, some, List, [], ◌∷◌, ◌++◌, append-nil, append_assoc, arith, ℤ, length, take,
  length-take, slice_lem, take_all, if◌then◌else◌, ◌>>=◌,
}
use test_libuv.Event.{UvEventType, UvEvent, plain_event}
use test_libuv.Looper.{push_all, Looper, push_event, handle_all}
use test_libuv.Looper
use test_libuv.TcpClient.{
  is_connected, TcpClient, Effect, pushes, writes, send, do_event, connectinl, closeinl, shutdowinl,
  sendinl,
}
use test_libuv.TcpClient.Connect.{send_lem}

-- What the effects hand to `uv_write`.
unfoldable pub written : List Effect → List (List ℕ)
written [] = []
written (writes bytes ∷ es) = bytes ∷ written es
written (_ ∷ es) = written es

-- What a list of effects pushes.
unfoldable pub pushed : List Effect → List UvEvent
pushed [] = []
pushed (pushes e ∷ es) = e ∷ pushed es
pushed (_ ∷ es) = pushed es

-- The bytes that an event is to write, if it is one that writes.
pub payload : UvEventType → Option (List ℕ) → List (List ℕ)
payload UvEventType.write (some bytes) = bytes ∷ []
payload UvEventType.write none = [] ∷ []
payload _ _ = []

unfoldable pub pending : List UvEvent → List (List ℕ)
pending [] = []
pending (e ∷ es) = payload e.type e.buff ++ pending es

-- An event holds as many bytes as it says.
pub FitsIn : Option (List ℕ) → ℕ → Type 0
FitsIn none size = Unit
FitsIn (some bytes) size = length bytes ≡ size

pub AllFit : List UvEvent → Type 0
AllFit [] = Unit
AllFit (e ∷ es) = FitsIn e.buff e.size × AllFit es

-- The object, and what was handed to `uv_write` so far; `none` is a copy outside of its block.
abbrev pub Sender : Type 0
Sender = Option (TcpClient × List (List ℕ))

module _ (addr_code connect_code : UvEvent → ℤ) where
  -- `DoEvent` of the loop calls `DoEvent` of the object.
  unfoldable pub handle : UvEvent → Sender → Sender
  handle e none = none
  handle e (some (c, w)) = elim (do_event (addr_code e) (connect_code e) e c) [
    | none ↦ none
    | some (c', es) ↦ some (c', w ++ written es)
  ]

-- The object, its loop, what `Send` has accepted so far and what `uv_write` was called on so far.
pub record System : Type 0 where
  pub client : TcpClient
  pub looper : Looper
  pub accepted : List (List ℕ)
  pub wrote : List (List ℕ)

-- Whether `Send` accepts bytes: a connected object, of which no close is awaited.
unfoldable pub takes : TcpClient → Bool
takes c = not (c.is_wait_closed || not (is_connected c.status)) && c.looper

-- The bytes that `Send` has accepted when it answers a number of them: what an object that accepts
-- says it sends, which may be no byte.
unfoldable pub accepts : Bool → ℕ → List ℕ → List (List ℕ)
accepts false n bytes = []
accepts true n bytes = take n bytes ∷ []

-- `Send`.
unfoldable pub sent : List ℕ → ℕ → System → Option System
unfolding push_all pushed accepts takes
sent bytes size s = do
  (n, (c, es)) ← send bytes size s.client
  some (record s {
    client = c;
    looper = push_all (pushed es) s.looper;
    accepted = s.accepted ++ accepts (takes s.client) n bytes;
  })

-- The loop wakes and handles its queue.
unfoldable pub woken : (UvEvent → ℤ) → (UvEvent → ℤ) → System → Option System
unfolding handle
woken addr_code connect_code s =
    let (l, r) =
      Looper.do_event (handle addr_code connect_code) s.looper (some (s.client, s.wrote)) in
    elim r [ none ↦ none | some (c, w) ↦ some (record s { client = c; looper = l; wrote = w }) ]

-- Any thread sends, the loop wakes, or some other method or callback changes the object and pushes
-- at most events without bytes.
pub data Step : System → System → Type 0 where
  sends :
      {s t : System} (bytes : List ℕ) (size : ℕ)
      → size ≤ length bytes
      → sent bytes size s ≡ some t
      → Step s t
  wakes :
      {s t : System} (addr_code connect_code : UvEvent → ℤ)
      → woken addr_code connect_code s ≡ some t
      → Step s t
  changes :
      {s : System} (c : TcpClient) (es : List UvEvent)
      → AllFit es
      → pending es ≡ []
      → Step s (record s { client = c; looper = push_all es s.looper })

pub data Reach (s : System) : System → Type 0 where
  here : Reach s s
  next : {t u : System} → Reach s t → Step t u → Reach s u

-- The state before anything was sent.
abbrev pub quiet : TcpClient → Looper → System
quiet c l = record { client = c; looper = record l { event_queue = [] }; accepted = []; wrote = [] }
