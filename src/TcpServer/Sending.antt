-- ===== src/TcpServer/Sending.antt =====
-- How `CTcpServer` of uv/TcpServer.cpp sends: the pool of requests, `sendinl`, and `broadcastinl`. The
-- request in an effect `writes` is what `uv_write` is called on; `AfterSend` gets it back.
use test_libuv.Common.{
  ℕ, Bool, true, false, not, Option, none, some, List, [], ◌∷◌, ◌++◌, ltb, if◌then◌else◌, length, ℤ,
  is_zero, copy, ◌>>=◌, take_out,
}
use test_libuv.Event.{UvEvent, UvEventType}
use test_libuv.PacketSync.{Allocator, pack_buffer_size}
use test_libuv.TcpServer.{
  SessionCtx, Session, WriteParam, TcpServer, Effect, send_error, writes, max_list_size,
}

module _ (a : Allocator) where
  -- `AllocWriteParam`.
  unfoldable pub alloc_write_param : ℕ → WriteParam
  alloc_write_param size = record { base = a.malloc size; len = size }

  -- The first request of the pool, or a new one.
  unfoldable pub take_from_pool : List WriteParam → TcpServer → WriteParam × TcpServer
  unfolding alloc_write_param
  take_from_pool [] s = (alloc_write_param pack_buffer_size, s)
  take_from_pool (p ∷ ps) s = (p, record s { writeparams = ps })

  -- The request made to hold `size` bytes.
  unfoldable pub widen : WriteParam → ℕ → WriteParam
  widen p size = if ltb p.len size then record p { base = a.realloc p.base size; len = size } else p

  -- The bytes copied into it.
  unfoldable pub fill : WriteParam → List ℕ → ℕ → Option WriteParam
  unfolding widen
  fill p buff size =
      let p' = widen p size in
      do base ← copy p'.base 0 buff 0 size; some (record p' { base = base; len = size })

  -- `sendinl` on a request that is out of the pool, with the code of `uv_write`.
  unfoldable pub send_request :
      ℤ → List ℕ → ℕ → SessionCtx → WriteParam → TcpServer → Option (Bool × TcpServer × List Effect)
  unfolding fill
  send_request code buff size ctx p s = do
    p' ← fill p buff size
    some (
        if not (is_zero code)
        then (
          false,
          record s { writeparams = s.writeparams ++ (p' ∷ []); errmsg = send_error },
          writes ctx.address p' ∷ [],
        )
        else (true, s, writes ctx.address p' ∷ []))

  unfoldable pub sendinl :
      ℤ → List ℕ → ℕ → SessionCtx → TcpServer → Option (Bool × TcpServer × List Effect)
  unfolding take_from_pool send_request
  sendinl code buff size ctx s =
      let (p, s1) = take_from_pool s.writeparams s in send_request code buff size ctx p s1

  -- The loop of `broadcastinl` over the sessions; `code` tells by address what `uv_write` returns.
  unfoldable pub broadcast_loop :
      (ℕ → ℤ)
      → List ℕ
      → ℕ
      → List (ℕ × Session)
      → List ℕ
      → TcpServer
      → Option (TcpServer × List Effect)
  broadcast_loop code buff size [] excluded s = some (s, [])
  broadcast_loop code buff size ((id, session) ∷ m) excluded s = elim (take_out id excluded) [
    | some excluded' ↦ broadcast_loop code buff size m excluded' s
    | none ↦ do
      (sent, s1, es) ← sendinl (code session.ctx.address) buff size session.ctx s
      (s2, more) ← broadcast_loop code buff size m excluded s1
      some (s2, es ++ more)
  ]

  -- `broadcastinl`: its two loops are one, since nothing is found in an empty list.
  unfoldable pub broadcastinl :
      (ℕ → ℤ) → List ℕ → ℕ → List ℕ → TcpServer → Option (TcpServer × List Effect)
  unfolding broadcast_loop
  broadcastinl code buff size excluded s = broadcast_loop code buff size s.session_map excluded s

-- `AfterSend`, which gives the request back.
unfoldable pub after_send : WriteParam → TcpServer → TcpServer
after_send p s =
    if ltb max_list_size (length s.writeparams)
    then s
    else record s { writeparams = s.writeparams ++ (p ∷ []) }

abbrev pub is_broadcast : UvEventType → Bool
is_broadcast UvEventType.broadcast = true
is_broadcast _ = false

-- The bytes behind a pointer of an event: none behind a null pointer.
abbrev pub bytes_at : Option (List ℕ) → List ℕ
bytes_at none = []
bytes_at (some bytes) = bytes

-- `DoEvent`. The event is freed at its end.
unfoldable pub do_event :
    Allocator → (ℕ → ℤ) → UvEvent → TcpServer → Option (TcpServer × List Effect)
unfolding broadcastinl
do_event a code e s =
    if is_broadcast e.type
    then broadcastinl a code (bytes_at e.buff) e.size e.list s
    else some (s, [])
