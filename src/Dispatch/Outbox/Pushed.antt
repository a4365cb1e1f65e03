-- ===== src/Dispatch/Outbox/Pushed.antt =====
-- What `PushBroadcastEvent` puts into the queue.
use test_libuv.Common.{
  ℕ, ◌≡◌, refl, ◌>>=◌, Option, true, some, List, [], ◌∷◌, arith, if◌then◌else◌, inl, length,
  slice_lem, take_all,
}
use test_libuv.Event.{UvEvent, UvEventType, plain_event, create_uv_event}
use test_libuv.Looper.{Looper, push_all}
use test_libuv.TcpServer.{TcpServer, Effect, pushes, broadcast}
use test_libuv.TcpServer.Broadcast.{member}
use test_libuv.Dispatch.Outbox.{messages_for, IsReady}

-- On an attached server it says yes and pushes one event, which is ready for any server that
-- handles it and carries the bytes for each id that is not left out.
pub broadcast-IsReady :
    (bytes excluded : List ℕ) (s t : TcpServer)
    → s.looper ≡ true
    → (e : UvEvent) × (broadcast bytes excluded s ≡ some (true, pushes e ∷ []))
      × IsReady t e
      × ((id : ℕ) → messages_for id (e ∷ []) ≡ (if member id excluded then [] else bytes ∷ []))
unfolding broadcast create_uv_event messages_for
broadcast-IsReady bytes excluded s t attached =
    let whole = take_all (length bytes) bytes (omega arith) in
    (
      record (plain_event UvEventType.broadcast 0) {
        buff = some bytes;
        size = length bytes;
        list = excluded;
      },
      rw (attached, broadcast, slice_lem bytes 0 (length bytes) (omega arith), whole) refl,
      inl (refl, omega arith),
      λ id. ground (arith, whole),
    )

-- The events that a method pushes.
unfoldable pub pushed : List Effect → List UvEvent
pushed [] = []
pushed (pushes e ∷ es) = e ∷ pushed es
pushed (_ ∷ es) = pushed es

-- The calls of `PushBroadcastEvent`, one after the other, on any threads: bytes, and the ids that
-- are left out.
unfoldable pub broadcast_all : List (List ℕ × List ℕ) → TcpServer → Looper → Option Looper
unfolding pushed
broadcast_all [] s l = some l
broadcast_all ((bytes, excluded) ∷ ms) s l = do
  (ok, es) ← broadcast bytes excluded s
  broadcast_all ms s (push_all (pushed es) l)

-- The messages of these that are for an id.
unfoldable pub addressed : ℕ → List (List ℕ × List ℕ) → List (List ℕ)
addressed id [] = []
addressed id ((bytes, excluded) ∷ ms) =
    let rest = addressed id ms in if member id excluded then rest else bytes ∷ rest
