-- ===== src/Dispatch/Outbox.antt =====
-- `CLooper::DoEvent` of uv/Looper.cpp on a `CTcpServer` and its sessions: the events of the queue,
-- one after the other, and what they hand to `uv_write`. An event that was pushed by
-- `PushBroadcastEvent` is for the server; the others are for a session.
pub mod Sessions
pub mod Events
pub mod Delivery
pub mod Pushed
use test_libuv.Common.{
  ℕ, ◌≤◌, ◌≡◌, ◌≢◌, ◌==◌, ◌&&◌, ◌⊎◌, not, Option, none, some, List, [], ◌∷◌, ◌++◌, if◌then◌else◌, ℤ,
  length, take, Bool,
}
use test_libuv.Event.{UvEvent}
use test_libuv.PacketSync.{Allocator}
use test_libuv.Looper.{Looper}
use test_libuv.Looper
use test_libuv.TcpServer.{Session, TcpServer, Effect, writes, find}
use test_libuv.TcpServer.Sending.{is_broadcast, bytes_at}
use test_libuv.TcpServer.Broadcast.{member}
use test_libuv.Dispatch.{dispatch}

-- The server and all effects so far; `none` is a fault.
abbrev pub Served : Type 0
Served = Option (TcpServer × List Effect)

module _ (a : Allocator) (code : UvEvent → ℕ → ℤ) where
  -- `ptrClient->DoEvent(pEvent)`; `code` tells by the event and the address what `uv_write`
  -- returns.
  unfoldable pub handle : UvEvent → Served → Served
  handle e none = none
  handle e (some (s, es)) = elim (dispatch a (code e) e s) [
    | none ↦ none
    | some (s', more) ↦ some (s', es ++ more)
  ]

  -- The loop wakes and handles its queue.
  unfoldable pub woken : Looper → TcpServer → Looper × Served
  unfolding handle
  woken l s = Looper.do_event handle l (some (s, []))

-- What `uv_write` is called on for the context at an address, in order.
unfoldable pub bytes_to : ℕ → List Effect → List (List ℕ)
bytes_to x [] = []
bytes_to x (writes y p ∷ es) =
    let rest = bytes_to x es in if x == y then take p.len p.base ∷ rest else rest
bytes_to x (_ ∷ es) = bytes_to x es

-- The messages of the broadcasts in a queue that do not leave out this id, in order.
unfoldable pub messages_for : ℕ → List UvEvent → List (List ℕ)
messages_for id [] = []
messages_for id (e ∷ es) =
    let rest = messages_for id es in
    if (e.target == 0) && (is_broadcast e.type && not (member id e.list))
    then take e.size (bytes_at e.buff) ∷ rest
    else rest

-- The event is for the server and holds the bytes that it announces, or it is for a session of the
-- map.
abbrev pub IsReady : TcpServer → UvEvent → Type 0
IsReady s e =
    ((e.target ≡ 0) × (e.size ≤ length (bytes_at e.buff)))
    ⊎ ((e.target ≢ 0) × ((v : Session) × (find e.target s.session_map ≡ some v)))

abbrev pub AllReady : TcpServer → List UvEvent → Type 0
AllReady s [] = Unit
AllReady s (e ∷ es) = IsReady s e × AllReady s es
