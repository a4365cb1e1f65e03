-- ===== src/Dispatch.antt =====
-- `CLooper` and `CTcpServer` together. `dispatch` is the call `ptrClient->DoEvent(pEvent)` of
-- uv/Looper.cpp on the object that an event names: the server, whose number is 0, or a session; a
-- session that is deleted is not in the map any more, and the call is a fault. `walk_all` is
-- `AsyncCB`, which `Close` asks for, on the handles of the server, and `close_callbacks` what libuv
-- calls then.
pub mod NoPush
pub mod Dangling
pub mod Shutdown
pub mod Unclosed
pub mod Told
pub mod Outbox
mod Tests
use test_libuv.Common.{
  ℕ, ◌==◌, Bool, true, false, ◌||◌, Option, none, some, List, [], ◌∷◌, ◌++◌, if◌then◌else◌, ℤ,
}
use test_libuv.Event.{UvEvent}
use test_libuv.PacketSync.{Allocator}
use test_libuv.TcpServer.{TcpServer, Session, SessionCtx, HandleState, active, Effect, find}
use test_libuv.TcpServer
use test_libuv.TcpServer.Sending
use test_libuv.TcpSession.{on_session, on_handle_close, after_client_close}
use test_libuv.TcpSession

pub dispatch : Allocator → (ℕ → ℤ) → UvEvent → TcpServer → Option (TcpServer × List Effect)
dispatch a code e s =
    if e.target == 0
    then TcpServer.Sending.do_event a code e s
    else elim (find e.target s.session_map) [
      | none ↦ none
      | some v ↦
          let (v', es) = TcpSession.do_event e v in some (on_session e.target (λ w. v') s, es)
    ]

-- `CloseWalkCB` on each session's handle.
pub walk_sessions : List (ℕ × Session) → List (ℕ × Session) × List Effect
walk_sessions [] = ([], [])
walk_sessions ((id, v) ∷ m) =
    let (v', es) = on_handle_close v in
    let (m', more) = walk_sessions m in ((id, v') ∷ m', es ++ more)

-- `CloseWalkCB` on the handles behind which an object stands, the server and its sessions;
-- `closing` is what `uv_is_closing` says of the listening one.
pub walk : Bool → TcpServer → TcpServer × List Effect
unfolding walk_sessions
walk closing s =
    let (m, es) = walk_sessions s.session_map in
    (record s { session_map = m }, TcpServer.on_handle_close closing ++ es)

abbrev is_active : HandleState → Bool
is_active active = true
is_active _ = false

-- Whether the handle of one of the contexts is in use.
pub any_active : List SessionCtx → Bool
any_active [] = false
any_active (ctx ∷ ctxs) = is_active ctx.handle || any_active ctxs

-- `AsyncCB` on all handles of the server that `uv_walk` knows: those in use in an idle context as
-- well. The `data` of such a handle is not set, or points to a session that is deleted, and
-- `CloseWalkCB` on it is a fault. A handle that was given to `uv_close` and stands in an idle
-- context is taken as closed for good: libuv has finished with it and does not walk over it.
unfoldable pub walk_all : Bool → TcpServer → Option (TcpServer × List Effect)
unfolding any_active walk
walk_all closing s = if any_active s.idle then none else some (walk closing s)

-- `AfterClientClose` of the sessions, in the order in which libuv calls it.
pub close_callbacks : List ℕ → TcpServer → TcpServer × List Effect
close_callbacks [] s = (s, [])
close_callbacks (id ∷ ids) s =
    let (s', es) = after_client_close id s in
    let (s'', more) = close_callbacks ids s' in (s'', es ++ more)
