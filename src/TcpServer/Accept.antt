-- ===== src/TcpServer/Accept.antt =====
-- `AcceptConnection` of `CTcpServer`, uv/TcpServer.cpp, and the context and the session object that
-- it makes.
use test_libuv.Common.{
  ℕ, suc, ◌+◌, Bool, true, false, not, none, some, List, [], ◌∷◌, ◌++◌, if◌then◌else◌, ℤ, is_zero,
}
use test_libuv.PacketSync.{PacketSync, Allocator}
use test_libuv.PacketSync
use test_libuv.TcpServer.{
  raw, active, closing, SessionCtx, Session, TcpServer, Effect, uv_error, closes_handle,
  calls_new_conn, insert, recycle,
}

-- `InitSession` on a new `CTcpClientSession`.
unfoldable pub init_session : SessionCtx → Bool → Session
init_session ctx looper = record {
  ctx = record ctx { parent_session = some ctx.client_id };
  is_closed = false;
  looper = looper;
}

module _ (a : Allocator) where
  -- `AllocTcpSessionCtx`.
  pub alloc_ctx : ℕ → SessionCtx
  alloc_ctx address = record {
    address = address;
    handle = raw;
    packet = PacketSync.init a 0 false;
    client_id = 0;
    parent_session = none;
  }

  -- The context for a new client: the first of the idle ones, or a new one.
  unfoldable pub take_from : List SessionCtx → TcpServer → SessionCtx × TcpServer
  unfolding alloc_ctx
  take_from [] s = (alloc_ctx s.heap, record s { heap = s.heap + 1 })
  take_from (ctx ∷ idle) s = (record ctx { parent_session = none }, record s { idle = idle })

  -- The end of `AcceptConnection`: the session gets its id and goes into the map. The id is the
  -- counter of `CreateSessionId`, an `int`: what C++ leaves undefined, one more than the largest
  -- `int`, is a number here.
  unfoldable pub open_session : SessionCtx → TcpServer → TcpServer × List Effect
  unfolding init_session
  open_session ctx s =
      let id = suc s.last_id in
      let session = init_session (record ctx { client_id = id }) s.looper in
      (
        record s { last_id = id; session_map = insert id session s.session_map },
        if s.has_new_conn_cb then calls_new_conn id ∷ [] else [],
      )

  -- `AcceptConnection` from `uv_tcp_init` on, with the codes of this, `uv_accept` and
  -- `uv_read_start`, on the context for the new client.
  unfoldable pub accept_on : ℤ → ℤ → ℤ → SessionCtx → TcpServer → TcpServer × List Effect
  unfolding open_session recycle
  accept_on init_code accept_code read_code ctx s =
      let ctx1 = record ctx { handle = active } in
      let ctx2 = record ctx1 {
        packet = record ctx.packet { head = s.packet_head; has_callback = true };
      } in
      if not (is_zero init_code)
      then (record s { idle = s.idle ++ (ctx ∷ []); errmsg = uv_error init_code }, [])
      else if not (is_zero accept_code)
      then (record s { idle = s.idle ++ (ctx1 ∷ []); errmsg = uv_error accept_code }, [])
      else if not (is_zero read_code)
      then (
        record (recycle (record ctx2 { handle = closing }) s) { errmsg = uv_error read_code },
        closes_handle ctx.address ∷ [],
      )
      else open_session ctx2 s

  -- `AcceptConnection`, with the status of the connection as well.
  unfoldable pub accept_connection : ℤ → ℤ → ℤ → ℤ → TcpServer → TcpServer × List Effect
  unfolding take_from accept_on
  accept_connection status init_code accept_code read_code s =
      let (ctx, s1) = take_from s.idle s in
      if not (is_zero status)
      then (record s { errmsg = uv_error status }, [])
      else accept_on init_code accept_code read_code ctx s1
