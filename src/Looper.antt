-- ===== src/Looper.antt =====
-- `CLooper` of uv/Looper.h and uv/Looper.cpp: a queue of events that any thread fills and the thread
-- of the loop empties. `PushEvent` and `DoEvent` hold the queue's mutex from end to end, so each is
-- one step. Calls of libuv are effects or return codes. An event is handled by `handle`, which stands
-- for the call of `DoEvent` of the object that the event names.
pub mod Order
pub mod Queue
pub mod Start
pub mod Locks
mod Tests
use test_libuv.Common.{
  Bool, true, false, not, Option, none, some, List, [], ◌∷◌, ◌++◌, if◌then◌else◌, ℤ, is_zero,
}
use test_libuv.Event.{UvEvent}

pub record Looper : Type 0 where
  pub event_queue : List UvEvent
  pub is_closed : Bool
  pub inited : Bool
  pub last_error : Option ℤ

-- The two `uv_async_t` handles of a loop.
pub data Async : Type 0 where
  event_handle looper_close : Async

-- `uv_async_send`.
pub data Effect : Type 0 where
  sends : Async → Effect

-- The constructor.
pub init : Looper
init = record { event_queue = []; is_closed = false; inited = false; last_error = none }

unfoldable pub close : Looper → Looper × List Effect
close l = if l.is_closed then (l, []) else (record l { is_closed = true }, sends looper_close ∷ [])

-- The destructor: `Close`, and then it waits for the thread of the loop, which goes on with `rest` until
-- its `run` has returned.
unfoldable pub destroy : (Looper → Looper) → Looper → Looper × List Effect
unfolding close
destroy rest l = let (l', es) = close l in (rest l', es)

unfoldable pub push_event : UvEvent → Looper → Looper × List Effect
push_event e l = (record l { event_queue = l.event_queue ++ (e ∷ []) }, sends event_handle ∷ [])

-- The events of a method, pushed one after the other.
unfoldable pub push_all : List UvEvent → Looper → Looper
unfolding push_event
push_all [] l = l
push_all (e ∷ es) l = push_all es (push_event e l).0

-- The loop of `DoEvent`: the event at the front is handled and then popped.
unfoldable pub handle_all {ℓ} : {S : Type ℓ} → (UvEvent → S → S) → List UvEvent → S → S
handle_all handle [] s = s
handle_all handle (e ∷ queue) s = handle_all handle queue (handle e s)

unfoldable pub do_event {ℓ} : {S : Type ℓ} → (UvEvent → S → S) → Looper → S → Looper × S
unfolding handle_all
do_event handle l s = (record l { event_queue = [] }, handle_all handle l.event_queue s)

-- `run`, which `WorkThread` calls, once `uv_run` has returned.
pub run_ended : ℤ → Looper → Bool × Looper
run_ended code l =
    let l' = record l { is_closed = true } in
    if is_zero code then (true, l') else (false, record l' { last_error = some code })

-- How far `InitLooper` comes by the codes of `uv_loop_init`, `uv_thread_create` and the two calls of
-- `uv_async_init`: it fails, or it waits until the new thread has set `_inited`, and succeeds.
pub data Init : Type 0 where
  failed : Looper → Init
  waits : Looper → Init

pub init_looper : ℤ → ℤ → ℤ → ℤ → Looper → Init
init_looper loop_code thread_code close_code event_code l =
    let l' = record l { inited = false } in
    if not (is_zero loop_code)
    then failed (record l' { last_error = some loop_code })
    else if not (is_zero thread_code)
    then failed (record l' { last_error = some thread_code })
    else if not (is_zero close_code)
    then failed (record l' { last_error = some close_code })
    else if not (is_zero event_code)
    then failed (record l' { last_error = some event_code })
    else waits l'

-- What a handle's `data` points to: nothing, this loop, or an object with `OnHandleClose`.
pub data Owner : Type 0 where
  nobody this_loop an_object : Owner

pub data Closing : Type 0 where
  left_alone : Closing
  closed_here : Closing
  asked_object : Closing

-- `CloseWalkCB` on a handle, by its owner and what `uv_is_closing` says of it.
pub close_walk_cb : Owner → Bool → Closing
close_walk_cb this_loop closing = if not closing then closed_here else left_alone
close_walk_cb an_object closing = asked_object
close_walk_cb nobody closing = left_alone
