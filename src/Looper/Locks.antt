-- ===== src/Looper/Locks.antt =====
-- `PushEvent` and `DoEvent` of `CLooper` with their `CAutoLock`s, statement by statement: any
-- number of threads push while the thread of the loop handles. `CMutex` is a mutex of libuv: a
-- thread gets it only when nobody has it. `Looper.Order` has each method in one step.
pub mod Exclusion
pub mod Progress
mod Tests
use test_libuv.Common.{ℕ, ◌≡◌, Bool, true, false, List, [], ◌∷◌, ◌++◌, ◌==◌, if◌then◌else◌}
use test_libuv.Event.{UvEvent}
use test_libuv.Looper.{handle_all}

-- Where a thread stands in `PushEvent`: outside, behind the lock, behind the push, behind
-- `uv_async_send`.
pub data Pusher : Type 0 where
  outside : Pusher
  locked : UvEvent → Pusher
  queued : Pusher
  sent : Pusher

-- Where the thread of the loop stands: in libuv, at the begin of `DoEvent`, behind the lock, behind
-- the call for the front event.
pub data LoopThread : Type 0 where
  polls : LoopThread
  called : LoopThread
  holds : LoopThread
  handled_front : LoopThread

pub data Owner : Type 0 where
  nobody : Owner
  pusher : ℕ → Owner
  the_loop : Owner

-- `woken` is set by `uv_async_send`. `pushed` and `handled` are the events so far.
pub record Threads (S : Type 0) : Type 0 where
  pub mutex : Owner
  pub at : ℕ → Pusher
  pub loop_at : LoopThread
  pub event_queue : List UvEvent
  pub state : S
  pub woken : Bool
  pub pushed : List UvEvent
  pub handled : List UvEvent

abbrev pub move : (ℕ → Pusher) → ℕ → Pusher → ℕ → Pusher
move at i p j = if i == j then p else at j

module _ {S : Type 0} (handle : UvEvent → S → S) where
  pub data Step (s : Threads S) : Threads S → Type 0 where
    locks :
        (i : ℕ) (e : UvEvent)
        → s.at i ≡ outside
        → s.mutex ≡ nobody
        → Step s (record s { mutex = pusher i; at = move s.at i (locked e) })
    pushes :
        (i : ℕ) (e : UvEvent)
        → s.at i ≡ locked e
        → Step s (record s {
          at = move s.at i queued;
          event_queue = s.event_queue ++ (e ∷ []);
          pushed = s.pushed ++ (e ∷ []);
        })
    sends : (i : ℕ) → s.at i ≡ queued → Step s (record s { at = move s.at i sent; woken = true })
    unlocks :
        (i : ℕ) → s.at i ≡ sent → Step s (record s { mutex = nobody; at = move s.at i outside })
    loop_wakes :
        s.loop_at ≡ polls → s.woken ≡ true → Step s (record s { loop_at = called; woken = false })
    loop_locks :
        s.loop_at ≡ called
        → s.mutex ≡ nobody
        → Step s (record s { mutex = the_loop; loop_at = holds })
    loop_handles :
        (e : UvEvent) (rest : List UvEvent)
        → s.loop_at ≡ holds
        → s.event_queue ≡ e ∷ rest
        → Step s (record s {
          state = handle e s.state;
          loop_at = handled_front;
          handled = s.handled ++ (e ∷ []);
        })
    loop_pops :
        (e : UvEvent) (rest : List UvEvent)
        → s.loop_at ≡ handled_front
        → s.event_queue ≡ e ∷ rest
        → Step s (record s { event_queue = rest; loop_at = holds })
    loop_unlocks :
        s.loop_at ≡ holds
        → s.event_queue ≡ []
        → Step s (record s { mutex = nobody; loop_at = polls })

  pub data Reach (s : Threads S) : Threads S → Type 0 where
    here : Reach s s
    next : {t u : Threads S} → Reach s t → Step t u → Reach s u

-- Nobody has the mutex, and nothing was pushed.
abbrev pub fresh : {S : Type 0} → S → Threads S
fresh start = record {
  mutex = nobody;
  at = λ i. outside;
  loop_at = polls;
  event_queue = [];
  state = start;
  woken = false;
  pushed = [];
  handled = [];
}
