-- ===== src/TcpClient/Callbacks.antt =====
-- The callbacks of libuv on a `CTcpClient`, uv/TcpClient.cpp: the timer, the connection, received bytes, the
-- shutdown and the closing of a handle.
use test_libuv.Common.{
  ℕ, zero, suc, Bool, true, false, ◌&&◌, not, List, [], ◌∷◌, ◌++◌, map, if◌then◌else◌, ℤ, pos,
  negsuc, is_zero, ◌==ℤ◌,
}
use test_libuv.PacketSync.{
  Allocator, Outcome, done, fault, unfinished, on_recv_data, pack_buffer_size,
}
use test_libuv.TcpClient.{
  TcpClient, Run, Effect, Handle, tcp, timer, closes, starts_read, calls_conn, calls_close,
  calls_recv, uv_error, time_out_text, status_none, connected, connect_error, connect_time_out,
  is_time_out, close_tcp, closeinl, on_handle_close,
}

-- A callback of the user, if it is set.
abbrev pub calls : Bool → Effect → List Effect
calls set e = if set then e ∷ [] else []

unfoldable pub connect_time_out_cb : TcpClient → Run
unfolding close_tcp
connect_time_out_cb c =
    let (c1, closed) = close_tcp c in
    (
      record c1 { timer_closing = true; errmsg = time_out_text; status = connect_time_out },
      closed ++ (closes timer ∷ calls c.has_conn_cb (calls_conn connect_time_out)),
    )

-- `AfterConnect`, with `UV_ECANCELED`, the code of the connection and that of `uv_read_start`.
unfoldable pub after_connect : ℤ → ℤ → ℤ → TcpClient → Run
unfolding on_handle_close
after_connect ecanceled code read_code c =
    let (c1, closed) = on_handle_close timer c in
    if (code ==ℤ ecanceled) && is_time_out c1.status
    then (c1, closed)
    else if not (is_zero code)
    then (
      record c1 { status = connect_error; errmsg = uv_error code },
      closed ++ calls c.has_conn_cb (calls_conn connect_error),
    )
    else if not (is_zero read_code)
    then (
      record c1 { errmsg = uv_error code; status = connect_error },
      closed ++ (starts_read ∷ calls c.has_conn_cb (calls_conn connect_error)),
    )
    else (
      record c1 { status = connected },
      closed ++ (starts_read ∷ calls c.has_conn_cb (calls_conn connected)),
    )

-- `AfterRecv` for `nread < 0`.
unfoldable pub after_recv_error : ℤ → TcpClient → Run
after_recv_error code c =
    (record c { errmsg = uv_error code; status = status_none; tcp_closing = true }, closes tcp ∷ [])

-- `read_buf_` of `AllocTcpClientCtx`, which `AllocBufferForRecv` hands to libuv each time.
unfoldable pub alloc_buffer_for_recv : Allocator → List ℕ
alloc_buffer_for_recv a = a.malloc pack_buffer_size

-- `AfterRecv` for `nread > 0`: the bytes go to the packet splitter, whose callback copies each packet
-- and hands the copy to the user.
unfoldable pub after_recv_data : Allocator → ℕ → List ℕ → ℕ → TcpClient → Outcome Run
after_recv_data a fuel buf nread c = elim (on_recv_data a fuel c.packet buf nread) [
  | done (packet, packs) ↦
      done (record c { packet = packet }, if c.has_recv_cb then map calls_recv packs else [])
  | fault ↦ fault
  | unfinished ↦ unfinished
]

-- `AfterRecv` by the sign of `nread`.
unfoldable pub after_recv : Allocator → ℕ → List ℕ → ℤ → TcpClient → Outcome Run
unfolding after_recv_error after_recv_data
after_recv a fuel buf (negsuc n) c = done (after_recv_error (negsuc n) c)
after_recv a fuel buf (pos zero) c = done (c, [])
after_recv a fuel buf (pos (suc n)) c = after_recv_data a fuel buf (suc n) c

-- `AfterShutDown`.
unfoldable pub after_shut_down : TcpClient → Run
unfolding closeinl
after_shut_down c = closeinl c

-- `AfterHandleClose`. The user's callback runs before the status is reset, and may call methods of
-- the object: `user` is what it does.
unfoldable pub after_handle_close : (TcpClient → Run) → Handle → TcpClient → Run
after_handle_close user timer c = (c, [])
after_handle_close user tcp c =
    let told : Run =
      if c.has_close_cb then ((user c).0, calls_close c.client_id ∷ (user c).1) else (c, []) in
    let (c1, done_there) = told in
    (record c1 { status = status_none; is_wait_closed = false }, done_there)
