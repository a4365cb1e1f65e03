-- ===== src/Blocks.antt =====
-- Who owns the blocks of the C heap that an event and a write request take: `CreateUvEvent` and
-- `FreeUvEvent`, `AllocWriteParam` and `FreeWriteParam` of uv/Packet.h with what uv/TcpClient.cpp does with
-- them (`Send` and the like, `DoEvent`, `sendinl`, `AfterSend`). `CUvUdp` of uv/Udp.cpp does the same with
-- a `send_param`. A block is known by its address; the bytes in it are those of `Event` and
-- `TcpClient`.
pub mod Free
pub mod Owned
pub mod Pool
pub mod Steps
mod Tests
use test_libuv.Common.{
  ℕ, suc, Bool, Option, none, some, List, [], ◌∷◌, ◌++◌, ◌>>=◌, take_out, is_zero, ℤ, if◌then◌else◌,
}
use test_libuv.Event.{UvEventType}
use test_libuv.Udp.{is_write}

-- The next address, and the blocks that are not freed.
pub record Heap : Type 0 where
  pub next : ℕ
  pub live : List ℕ

abbrev pub malloc : Heap → ℕ × Heap
malloc h = (h.next, record { next = suc h.next; live = h.next ∷ h.live })

-- `free` of a block that is not allocated, or freed already, is a fault.
unfoldable pub free : ℕ → Heap → Option Heap
unfolding take_out
free x h = do rest ← take_out x h.live; some (record h { live = rest })

-- An event, and the block of its bytes unless `_buff` is null.
pub record EventBlock : Type 0 where
  pub type : UvEventType
  pub address : ℕ
  pub buff : Option ℕ

-- `write_param`, and the block of `buf_.base`.
pub record RequestBlock : Type 0 where
  pub address : ℕ
  pub base : ℕ

-- By whether `pBuff` is not null.
unfoldable pub create_uv_event : UvEventType → Bool → Heap → EventBlock × Heap
create_uv_event type has_bytes h =
    let (e, h1) = malloc h in
    let (b, h2) = malloc h1 in
    if has_bytes
    then (record { type = type; address = e; buff = some b }, h2)
    else (record { type = type; address = e; buff = none }, h1)

unfoldable pub free_uv_event : EventBlock → Heap → Option Heap
unfolding free
free_uv_event e h = elim e.buff [
  | none ↦ free e.address h
  | some b ↦ do h1 ← free b h; free e.address h1
]

unfoldable pub alloc_write_param : Heap → RequestBlock × Heap
alloc_write_param h =
    let (p, h1) = malloc h in let (b, h2) = malloc h1 in (record { address = p; base = b }, h2)

unfoldable pub free_write_param : RequestBlock → Heap → Option Heap
unfolding free
free_write_param r h = do h1 ← free r.base h; free r.address h1

-- The blocks, the events in the queue of the loop and the requests on which `uv_write` has been
-- called and `AfterSend` has not.
pub record System : Type 0 where
  pub heap : Heap
  pub event_queue : List EventBlock
  pub writing : List RequestBlock

-- A method that pushes an event.
unfoldable pub push : UvEventType → Bool → System → System
unfolding create_uv_event
push type has_bytes s =
    let (e, h) = create_uv_event type has_bytes s.heap in
    record s { heap = h; event_queue = s.event_queue ++ (e ∷ []) }

-- `sendinl`, with the code of `uv_write`.
unfoldable pub sendinl : ℤ → System → Option System
unfolding alloc_write_param free_write_param
sendinl code s =
    let (r, h) = alloc_write_param s.heap in
    if is_zero code
    then some (record s { heap = h; writing = s.writing ++ (r ∷ []) })
    else (do h1 ← free_write_param r h; some (record s { heap = h1 }))

-- The call of `DoEvent` of the object on an event, which is freed at its end.
unfoldable pub do_event : ℤ → EventBlock → System → Option System
unfolding sendinl free_uv_event
do_event code e s = do
  s1 ← if is_write e.type then sendinl code s else some s
  h ← free_uv_event e s1.heap
  some (record s1 { heap = h })

-- The loop of `CLooper::DoEvent`; the code of `uv_write` may differ from event to event.
unfoldable pub handle_all : (ℕ → ℤ) → List EventBlock → System → Option System
unfolding do_event
handle_all code [] s = some s
handle_all code (e ∷ es) s = do s1 ← do_event (code e.address) e s; handle_all code es s1

unfoldable pub wake : (ℕ → ℤ) → System → Option System
unfolding handle_all
wake code s = handle_all code s.event_queue (record s { event_queue = [] })

-- `AfterSend` on a request; `rest` are the others.
unfoldable pub after_send : RequestBlock → List RequestBlock → System → Option System
unfolding free_write_param
after_send r rest s = do h ← free_write_param r s.heap; some (record s { heap = h; writing = rest })
