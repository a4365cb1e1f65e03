-- ===== src/Looper/Locks/Tests.antt =====
-- A thread stands behind its push while the loop has not been woken.
use test_libuv.Common.{ℕ, suc, refl, [], ◌∷◌}
use test_libuv.Event.{UvEvent, UvEventType, plain_event}
use test_libuv.Looper.Locks.{
  Threads, locks, pushes, Reach, here, next, fresh, move, pusher, locked, queued,
}
use test_libuv.Looper.Locks.Exclusion.{IsExclusive, Reach-IsExclusive}

abbrev count_it : UvEvent → ℕ → ℕ
count_it e n = suc n

abbrev ask : UvEvent
ask = plain_event UvEventType.close 7

abbrev none_yet : Threads ℕ
none_yet = fresh 0

abbrev pushed_one : Threads ℕ
pushed_one = record none_yet {
  mutex = pusher 2;
  at = move (move none_yet.at 2 (locked ask)) 2 queued;
  event_queue = ask ∷ [];
  pushed = ask ∷ [];
}

pushed_one-Reach : Reach count_it none_yet pushed_one
pushed_one-Reach = next (next here (locks 2 ask refl refl)) (pushes 2 ask refl)

Reach-IsExclusive_example : IsExclusive count_it 0 pushed_one
Reach-IsExclusive_example = Reach-IsExclusive count_it 0 pushed_one-Reach
