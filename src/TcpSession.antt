-- ===== src/TcpSession.antt =====
-- `CTcpClientSession` of uv/TcpServer.cpp, the server's side of one connection. `InitSession` is
-- `TcpServer.Accept.init_session`, and the bytes of `Send` and `AfterSend` go through `TcpServer.Sending`. A
-- callback finds its session in the map of the server by the id; what it does to the session object
-- it does to the entry there.
pub mod Steps
pub mod Receive
pub mod Settings
mod Tests
use test_libuv.Common.{
  ℕ, zero, suc, Bool, true, false, not, Option, none, some, List, [], ◌∷◌, ◌++◌, map, ◌==◌,
  if◌then◌else◌, ℤ, pos, negsuc,
}
use test_libuv.Event.{UvEvent, UvEventType, plain_event}
use test_libuv.PacketSync.{PacketSync, Allocator, Outcome, done, fault, unfinished, on_recv_data}
use test_libuv.TcpServer.{
  HandleState, closing, SessionCtx, Session, TcpServer, Effect, pushes, closes_handle, shuts_down,
  calls_recv, session_handle_close,
}
use test_libuv.TcpServer.Sending.{sendinl}

-- `_looper->PushEvent(CreateUvEvent(type))` unless the session is closed.
unfoldable pub push_plain : UvEventType → Session → List Effect
push_plain type v =
    if v.is_closed
    then []
    else if v.looper
    then pushes (plain_event type v.ctx.client_id) ∷ []
    else []

-- `Close` and `ShutDown`.
unfoldable pub close : Session → List Effect
unfolding push_plain
close v = push_plain UvEventType.close v

unfoldable pub shut_down : Session → List Effect
unfolding push_plain
shut_down v = push_plain UvEventType.shutdown v

-- `Send`, with the code of `uv_write`.
pub send :
    Allocator → ℤ → List ℕ → ℕ → Session → TcpServer → Option (Bool × TcpServer × List Effect)
unfolding sendinl
send a code buff size v s = sendinl a code buff size v.ctx s

-- What `uv_is_closing` says.
abbrev pub is_closing : HandleState → Bool
is_closing closing = true
is_closing _ = false

-- `closeinl`.
unfoldable pub closeinl : Session → Session × List Effect
closeinl v =
    if not (is_closing v.ctx.handle)
    then (record v { ctx = record v.ctx { handle = closing } }, closes_handle v.ctx.address ∷ [])
    else (v, [])

-- `AfterShutDown`, whatever its status, and `OnHandleClose`.
pub after_shut_down : Session → Session × List Effect
unfolding closeinl
after_shut_down v = closeinl v

unfoldable pub on_handle_close : Session → Session × List Effect
on_handle_close v =
    if not (is_closing v.ctx.handle)
    then (record v { ctx = record v.ctx { handle = closing } }, closes_handle v.ctx.address ∷ [])
    else (v, [])

unfoldable pub shutdowinl : Session → List Effect
shutdowinl v = shuts_down v.ctx.address ∷ []

-- `DoEvent`.
unfoldable pub do_event : UvEvent → Session → Session × List Effect
unfolding closeinl shutdowinl
do_event e v = elim e.type [
  | UvEventType.close ↦ closeinl v
  | UvEventType.shutdown ↦ (v, shutdowinl v)
  | UvEventType.connect ↦ (v, [])
  | UvEventType.write ↦ (v, [])
  | UvEventType.broadcast ↦ (v, [])
]

-- `AfterRecv` for `nread > 0`: `has_recv_cb` says whether the server has a callback, which gets each
-- packet in a copy, with the session.
unfoldable pub after_recv_data :
    Allocator → ℕ → Bool → List ℕ → ℕ → Session → Outcome (Session × List Effect)
after_recv_data a fuel has_recv_cb buf nread v = elim (on_recv_data a fuel v.ctx.packet buf nread) [
  | done (packet, packs) ↦ done (
    record v { ctx = record v.ctx { packet = packet } },
    if has_recv_cb then map (λ pack. calls_recv pack v.ctx.client_id) packs else [],
  )
  | fault ↦ fault
  | unfinished ↦ unfinished
]

-- `AfterRecv` by the sign of `nread`.
unfoldable pub after_recv :
    Allocator → ℕ → Bool → List ℕ → ℤ → Session → Outcome (Session × List Effect)
unfolding after_recv_data close
after_recv a fuel has_recv_cb buf (negsuc n) v = done (v, close v)
after_recv a fuel has_recv_cb buf (pos zero) v = done (v, [])
after_recv a fuel has_recv_cb buf (pos (suc n)) v = after_recv_data a fuel has_recv_cb buf (suc n) v

-- A change of the session object that the map's entry points to.
unfoldable pub update : ℕ → (Session → Session) → List (ℕ × Session) → List (ℕ × Session)
update id f [] = []
update id f ((k, v) ∷ m) =
    let rest = update id f m in if id == k then (k, f v) ∷ m else (k, v) ∷ rest

abbrev pub on_session : ℕ → (Session → Session) → TcpServer → TcpServer
on_session id f s = record s { session_map = update id f s.session_map }

-- `AfterClientClose`: the session is marked as closed, and leaves the server.
unfoldable pub after_client_close : ℕ → TcpServer → TcpServer × List Effect
unfolding session_handle_close update
after_client_close id s =
    session_handle_close id (on_session id (λ v. record v { is_closed = true }) s)
