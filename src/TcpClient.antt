-- ===== src/TcpClient.antt =====
-- `CTcpClient` of uv/TcpClient.h and uv/TcpClient.cpp. A method or a callback of libuv returns the
-- new object and, in order, what it has done outside of it: the events that it pushed, its calls of
-- libuv and of the user's callbacks. The return codes of libuv are arguments. `tcp_closing` and
-- `timer_closing` are what `uv_is_closing` says of the two handles: `uv_close` sets them. `looper`
-- says whether `_looper` is not null.
pub mod Connect
pub mod Steps
pub mod Receive
pub mod Reading
pub mod Outbox
pub mod Close
pub mod Life
pub mod Answers
pub mod Callbacks
mod Tests
use test_libuv.Common.{
  ltb, ℕ, zero, suc, ◌+◌, ◌*◌, ◌%◌, ◌^◌, Bool, true, false, ◌||◌, ◌&&◌, not, Option, none, some,
  List, [], ◌∷◌, ◌++◌, map, length, if◌then◌else◌, ℤ, pos, negsuc, is_zero, is_neg, ◌==ℤ◌, ◌>>=◌,
  slice,
}
use test_libuv.Event.{UvEvent, plain_event, create_uv_event}
use test_libuv.Event.{UvEventType}
use test_libuv.PacketSync.{
  PacketSync, Allocator, Outcome, done, fault, unfinished, on_recv_data, int_limit,
}
use test_libuv.PacketSync

-- `TCP_STATUS_NONE` and so on.
pub data TcpStatus : Type 0 where
  status_none connecting connected connect_error connect_time_out : TcpStatus

-- `errmsg_`: empty, `GetUVError` of a code, or the text of a time-out.
pub data ErrMsg : Type 0 where
  no_error : ErrMsg
  uv_error : ℤ → ErrMsg
  time_out_text : ErrMsg

pub data Handle : Type 0 where
  tcp timer : Handle

pub data Effect : Type 0 where
  pushes : UvEvent → Effect
  connects : Bool → Effect
  starts_timer : ℕ → Effect
  starts_read : Effect
  writes : List ℕ → Effect
  shuts_down : Effect
  closes : Handle → Effect
  calls_conn : TcpStatus → Effect
  calls_close : ℕ → Effect
  calls_recv : List ℕ → Effect

pub record TcpClient : Type 0 where
  pub client_id : ℕ
  pub packet_head : ℕ
  pub status : TcpStatus
  pub is_wait_closed : Bool
  pub is_ipv6 : Bool
  pub conn_time_out : ℕ
  pub connect_ip : List ℕ
  pub connect_port : ℕ
  pub errmsg : ErrMsg
  pub looper : Bool
  pub tcp_closing : Bool
  pub timer_closing : Bool
  pub packet : PacketSync
  pub has_conn_cb : Bool
  pub has_recv_cb : Bool
  pub has_close_cb : Bool

-- A call that has changed the object, and what it has done.
abbrev pub Run : Type 0
Run = TcpClient × List Effect

abbrev pub is_none : TcpStatus → Bool
is_none status_none = true
is_none _ = false

abbrev pub is_connected : TcpStatus → Bool
is_connected connected = true
is_connected _ = false

abbrev pub is_connecting : TcpStatus → Bool
is_connecting connecting = true
is_connecting _ = false

abbrev pub is_connect_error : TcpStatus → Bool
is_connect_error connect_error = true
is_connect_error _ = false

abbrev pub is_time_out : TcpStatus → Bool
is_time_out connect_time_out = true
is_time_out _ = false

-- The constructor. `next_id` is `s_base_client_id`; its new value is the second part. `_looper` is
-- not set: `garbage` is what stands there.
unfoldable pub init : Allocator → ℕ → ℕ → Bool → TcpClient × ℕ
init a next_id packhead garbage = (
  record {
    client_id = next_id;
    packet_head = packhead;
    status = status_none;
    is_wait_closed = true;
    is_ipv6 = false;
    conn_time_out = 30;
    connect_ip = [];
    connect_port = 0;
    errmsg = no_error;
    looper = garbage;
    tcp_closing = false;
    timer_closing = false;
    packet = PacketSync.init a 0 false;
    has_conn_cb = false;
    has_recv_cb = false;
    has_close_cb = false;
  },
  next_id + 1,
)

-- `AttachLooper`, with the codes of `uv_tcp_init` and `uv_timer_init`.
unfoldable pub attach_looper : ℤ → ℤ → TcpClient → Bool × TcpClient
attach_looper tcp_init timer_init c =
    let c1 = record c { looper = true } in
    let c2 = record c1 { tcp_closing = false } in
    if not (is_zero tcp_init)
    then (false, record c1 { errmsg = uv_error tcp_init })
    else if not (is_zero timer_init)
    then (false, record c2 { errmsg = uv_error timer_init })
    else (
      true,
      record c2 {
        timer_closing = false;
        packet = record c.packet { head = c.packet_head; has_callback = true };
        is_wait_closed = false;
      },
    )

-- `_looper->PushEvent(CreateUvEvent(type))` under `if(_looper)`.
pub push_plain : UvEventType → TcpClient → List Effect
push_plain type c = if c.looper then pushes (plain_event type c.client_id) ∷ [] else []

unfoldable pub connect : List ℕ → ℕ → ℕ → Bool → TcpClient → Bool × Run
unfolding push_plain
connect ip port time_out v6 c =
    if not (is_none c.status) && not (is_connect_error c.status)
    then (false, (c, []))
    else if c.is_wait_closed
    then (false, (c, []))
    else (
      true,
      (
        record c {
          conn_time_out = time_out % 2 ^ 32;
          connect_ip = ip;
          connect_port = port;
          is_ipv6 = v6;
          status = if c.looper then connecting else status_none;
          is_wait_closed = false;
        },
        push_plain UvEventType.connect c,
      ),
    )

-- `CreateUvEvent` takes the `size_t` as an `int`, and `Send` returns it as one. `none` where the array
-- is shorter than that, or the `int` is negative: there is no block of such a size to copy to.
pub send_as_int : List ℕ → ℕ → TcpClient → Option (ℕ × Run)
unfolding create_uv_event
send_as_int bytes size c =
    if ltb size int_limit
    then (do
      e ← create_uv_event UvEventType.write (some bytes) size c.client_id
      some (size, (c, pushes e ∷ [])))
    else none

-- `Send`: the returned size, and the event.
unfoldable pub send : List ℕ → ℕ → TcpClient → Option (ℕ × Run)
unfolding send_as_int
send bytes size c =
    if c.is_wait_closed || not (is_connected c.status)
    then some (0, (c, []))
    else if c.looper
    then send_as_int bytes (size % 2 ^ 32) c
    else some (0, (c, []))

-- `SetNoDelay` and `SetKeepAlive`, with the code of `uv_tcp_nodelay` or `uv_tcp_keepalive`.
pub set_option : ℤ → TcpClient → Bool × TcpClient
set_option code c =
    if not (is_zero code) then (false, record c { errmsg = uv_error code }) else (true, c)

-- The guard of `Close`, `Shutdown` and `closeinl`.
abbrev pub is_open : TcpClient → Bool
is_open c = is_connected c.status || is_connecting c.status

unfoldable pub close : TcpClient → Run
unfolding push_plain
close c = if not (is_open c) then (c, []) else (c, push_plain UvEventType.close c)

-- The destructor. The context that it frees holds no more than the object.
unfoldable pub destroy : TcpClient → Run
unfolding close
destroy c = close c

pub shutdown : TcpClient → Run
unfolding push_plain
shutdown c = if not (is_open c) then (c, []) else (c, push_plain UvEventType.shutdown c)

-- `if (!uv_is_closing(tcp)) uv_close(tcp, AfterHandleClose)`.
unfoldable pub close_tcp : TcpClient → Run
close_tcp c = if c.tcp_closing then (c, []) else (record c { tcp_closing = true }, closes tcp ∷ [])

-- `connectinl`, with the codes of `uv_ip4_addr` (or 6) and `uv_tcp_connect`.
unfoldable pub connectinl : ℤ → ℤ → TcpClient → Run
connectinl addr_code connect_code c =
    if not (is_zero addr_code)
    then (record c { errmsg = uv_error addr_code }, [])
    else if not (is_zero connect_code)
    then (record c { errmsg = uv_error connect_code }, connects c.is_ipv6 ∷ [])
    else (c, connects c.is_ipv6 ∷ starts_timer (c.conn_time_out * 1000 % 2 ^ 32) ∷ [])

unfoldable pub closeinl : TcpClient → Run
unfolding close_tcp
closeinl c =
    if not (is_open c)
    then (c, [])
    else if c.is_wait_closed
    then (c, [])
    else close_tcp (record c { is_wait_closed = true })

unfoldable pub shutdowinl : TcpClient → Run
shutdowinl c = (c, shuts_down ∷ [])

-- `sendinl` copies the bytes into a request of its own and calls `uv_write`; the code that this
-- returns decides only who frees the request.
unfoldable pub sendinl : Option (List ℕ) → ℕ → TcpClient → Option Run
unfolding slice
sendinl none size c = some (c, writes [] ∷ [])
sendinl (some buff) size c = do bytes ← slice buff 0 size; some (c, writes bytes ∷ [])

-- `DoEvent`, on the thread of the loop. The event is freed at its end.
unfoldable pub do_event : ℤ → ℤ → UvEvent → TcpClient → Option Run
do_event addr_code connect_code e c = elim e.type [
  | UvEventType.connect ↦ some (connectinl addr_code connect_code c)
  | UvEventType.close ↦ some (closeinl c)
  | UvEventType.shutdown ↦ some (shutdowinl c)
  | UvEventType.write ↦ sendinl e.buff e.size c
  | UvEventType.broadcast ↦ some (c, [])
]

-- `OnHandleClose`, which the loop calls on each handle of this object when it is closed.
unfoldable pub on_handle_close : Handle → TcpClient → Run
unfolding close_tcp
on_handle_close tcp c = close_tcp c
on_handle_close timer c =
    if c.timer_closing then (c, []) else (record c { timer_closing = true }, closes timer ∷ [])

-- `OnConnectCBEvent`, `OnRecvCBEvent` and `OnCloseCBEvent`, by whether the function is one.
pub on_connect_cb_event : Bool → TcpClient → TcpClient
on_connect_cb_event set c = record c { has_conn_cb = set }

pub on_recv_cb_event : Bool → TcpClient → TcpClient
on_recv_cb_event set c = record c { has_recv_cb = set }

pub on_close_cb_event : Bool → TcpClient → TcpClient
on_close_cb_event set c = record c { has_close_cb = set }
