-- ===== src/Looper/Locks/Progress.antt =====
-- Nobody is stuck: while an event waits, the thread that has the mutex can go on, and the thread of
-- the loop if nobody has it.
use test_libuv.Common.{ℕ, ◌≢◌}
use test_libuv.Event.{UvEvent}
use test_libuv.Looper.Locks.{Threads, Step}

module _ {S : Type 0} (handle : UvEvent → S → S) (s : Threads S) where
  -- The pusher that has the mutex makes a step.
  abbrev pub PusherGoes : ℕ → Type 0
  PusherGoes i = (t : Threads S) × Step handle s t × (t.at i ≢ s.at i)

  -- The thread of the loop makes a step.
  abbrev pub LoopGoes : Type 0
  LoopGoes = (t : Threads S) × Step handle s t × (t.loop_at ≢ s.loop_at)
