-- ===== src/TcpServer.antt =====
-- `CTcpServer` of uv/TcpServer.h and uv/TcpServer.cpp, with the data of `CTcpClientSession`. A session
-- context (`TcpSessionCtx`) is known by its `address`; `heap` is how many were allocated, which is the
-- address of the next, and `freed` are the addresses given back. The other fields of `TcpServer` are
-- the members of the class; `last_id` is the static `s_id` of `CreateSessionId`. A session in
-- the map stands for the pointer to it. Calls of libuv are effects or return codes.
pub mod Maps
pub mod Ownership
pub mod Reuse
pub mod Sending
pub mod Writes
pub mod Broadcast
pub mod Accept
mod Tests
use test_libuv.Common.{
  ℕ, zero, suc, ◌+◌, Bool, true, false, not, Option, none, some, List, [], ◌∷◌, ◌++◌, ltb, ◌==◌,
  if◌then◌else◌, length, ℤ, is_zero, ◌>>=◌,
}
use test_libuv.Event.{UvEvent, UvEventType, create_uv_event}
use test_libuv.PacketSync.{PacketSync, Allocator}
use test_libuv.PacketSync

-- What a handle of libuv is: not initialised, in use, or given to `uv_close`.
pub data HandleState : Type 0 where
  raw active closing : HandleState

pub record SessionCtx : Type 0 where
  pub address : ℕ
  pub handle : HandleState
  pub packet : PacketSync
  pub client_id : ℕ
  pub parent_session : Option ℕ

-- `CTcpClientSession`; `looper` says whether `_looper` is not null.
pub record Session : Type 0 where
  pub ctx : SessionCtx
  pub is_closed : Bool
  pub looper : Bool

-- `write_param`: the block `buf_.base` and `buf_.len`.
pub record WriteParam : Type 0 where
  pub base : List ℕ
  pub len : ℕ

-- `errmsg_`.
pub data ErrMsg : Type 0 where
  no_error : ErrMsg
  uv_error : ℤ → ErrMsg
  send_error : ErrMsg

pub record TcpServer : Type 0 where
  pub packet_head : ℕ
  pub is_closed : Bool
  pub errmsg : ErrMsg
  pub looper : Bool
  pub bind_ip : List ℕ
  pub bind_port : ℕ
  pub has_new_conn_cb : Bool
  pub has_close_cb : Bool
  pub has_recv_cb : Bool
  pub session_map : List (ℕ × Session)
  pub idle : List SessionCtx
  pub writeparams : List WriteParam
  pub last_id : ℕ
  pub heap : ℕ
  pub freed : List ℕ

pub data Effect : Type 0 where
  pushes : UvEvent → Effect
  closes_looper : Effect
  closes_server : Effect
  closes_handle : ℕ → Effect
  shuts_down : ℕ → Effect
  writes : ℕ → WriteParam → Effect
  calls_new_conn : ℕ → Effect
  calls_close : ℕ → Effect
  calls_recv : List ℕ → ℕ → Effect

-- `MAXLISTSIZE`.
abbrev pub max_list_size : ℕ
max_list_size = 20

-- The constructor. `_looper` is not set: `garbage` says what stands there. No callback is set, and
-- `last_id` is what earlier servers of the process have used.
unfoldable pub init : ℕ → Bool → ℕ → TcpServer
init packhead garbage last_id = record {
  packet_head = packhead;
  is_closed = true;
  errmsg = no_error;
  looper = garbage;
  bind_ip = [];
  bind_port = 0;
  has_new_conn_cb = false;
  has_close_cb = false;
  has_recv_cb = false;
  session_map = [];
  idle = [];
  writeparams = [];
  last_id = last_id;
  heap = 0;
  freed = [];
}

-- `AttachLooper`, with the code of `uv_tcp_init`.
unfoldable pub attach_looper : ℤ → TcpServer → Bool × TcpServer
attach_looper code s =
    let s' = record s { looper = true } in
    if not (is_zero code)
    then (false, record s' { errmsg = uv_error code })
    else (true, record s' { is_closed = false })

-- `SetNoDelay` and `SetKeepAlive`, and the end of `listen`: a code of libuv is an error or not.
unfoldable pub set_option : ℤ → TcpServer → Bool × TcpServer
set_option code s =
    if not (is_zero code) then (false, record s { errmsg = uv_error code }) else (true, s)

unfoldable pub bind : ℤ → ℤ → TcpServer → Bool × TcpServer
bind addr_code bind_code s =
    if not (is_zero addr_code)
    then (false, record s { errmsg = uv_error addr_code })
    else if not (is_zero bind_code)
    then (false, record s { errmsg = uv_error bind_code })
    else (true, s)

unfoldable pub listen : ℤ → TcpServer → Bool × TcpServer
unfolding set_option
listen code s = set_option code s

unfoldable pub start : ℤ → ℤ → ℤ → List ℕ → ℕ → TcpServer → Bool × TcpServer
unfolding bind listen
start addr_code bind_code listen_code ip port s =
    let (bound, s1) = bind addr_code bind_code (record s { bind_ip = ip; bind_port = port }) in
    if not bound then (false, s1) else listen listen_code s1

-- `std::map<int, CTcpClientSession*>` in the order of its keys.
unfoldable pub find : ℕ → List (ℕ × Session) → Option Session
find k [] = none
find k ((k', v) ∷ m) = let rest = find k m in if k == k' then some v else rest

unfoldable pub insert : ℕ → Session → List (ℕ × Session) → List (ℕ × Session)
insert k v [] = (k, v) ∷ []
insert k v ((k', v') ∷ m) =
    let rest = insert k v m in
    if ltb k k' then (k, v) ∷ (k', v') ∷ m else if k == k' then (k', v') ∷ m else (k', v') ∷ rest

unfoldable pub erase : ℕ → List (ℕ × Session) → List (ℕ × Session)
erase k [] = []
erase k ((k', v) ∷ m) = let rest = erase k m in if k == k' then m else (k', v) ∷ rest

-- The list is full: the context is freed; else it is kept for the next client.
unfoldable pub recycle : SessionCtx → TcpServer → TcpServer
recycle ctx s =
    if ltb max_list_size (length s.idle)
    then record s { freed = ctx.address ∷ s.freed }
    else record s { idle = s.idle ++ (ctx ∷ []) }

-- `CTcpClientSessionHandleClose`, by what the map holds at the id.
unfoldable pub close_found : ℕ → Option Session → TcpServer → TcpServer × List Effect
unfolding recycle
close_found id none s = (s, [])
close_found id (some session) s = (
  record (recycle session.ctx s) { session_map = erase id s.session_map },
  if s.has_close_cb then calls_close id ∷ [] else [],
)

unfoldable pub session_handle_close : ℕ → TcpServer → TcpServer × List Effect
unfolding close_found
session_handle_close id s = close_found id (find id s.session_map) s

-- `PushBroadcastEvent`, by the bytes and the ids that are left out. The server's own number is 0.
unfoldable pub broadcast : List ℕ → List ℕ → TcpServer → Option (Bool × List Effect)
unfolding create_uv_event
broadcast bytes excluded s =
    if s.looper
    then (do
      e ← create_uv_event UvEventType.broadcast (some bytes) (length bytes) 0
      some (true, pushes (record e { list = excluded }) ∷ []))
    else some (false, [])

unfoldable pub close : TcpServer → List Effect
close s = if s.looper then closes_looper ∷ [] else []

-- `AfterServerClose`, and `OnHandleClose` of the listening handle by `uv_is_closing`.
pub after_server_close : TcpServer → TcpServer
after_server_close s = record s { is_closed = true }

unfoldable pub on_handle_close : Bool → List Effect
on_handle_close is_closing = if not is_closing then closes_server ∷ [] else []

-- `OnNewConnectCBEvent`, `OnTcpClientCloseCBEvent` and `OnTcpClientRecvCBEvent`, by whether the
-- function is one.
unfoldable pub on_new_connect_cb_event : Bool → TcpServer → TcpServer
on_new_connect_cb_event set s = record s { has_new_conn_cb = set }

unfoldable pub on_tcp_client_close_cb_event : Bool → TcpServer → TcpServer
on_tcp_client_close_cb_event set s = record s { has_close_cb = set }

unfoldable pub on_tcp_client_recv_cb_event : Bool → TcpServer → TcpServer
on_tcp_client_recv_cb_event set s = record s { has_recv_cb = set }

addresses : List SessionCtx → List ℕ
addresses [] = []
addresses (ctx ∷ ctxs) = ctx.address ∷ addresses ctxs

-- The destructor, on a server that nobody uses any more: what is idle is freed.
unfoldable pub destroy : TcpServer → TcpServer × List Effect
unfolding close addresses
destroy s = (record s { freed = addresses s.idle ++ s.freed; idle = []; writeparams = [] }, close s)
