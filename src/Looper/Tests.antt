-- ===== src/Looper/Tests.antt =====
-- Runs of `CLooper`, and its theorems at them.
use test_libuv.Common.{ℕ, ◌≡◌, refl, ◌⊎◌, true, false, List, [], ◌∷◌}
use test_libuv.Event.{UvEvent, UvEventType, plain_event}
use test_libuv.Looper.{Looper, handle_all, do_event, push_event, close, close_walk_cb}
use test_libuv.Looper
use test_libuv.Looper.Order.{
  System, push, wake, closed, walked, pushes, wakes, closes, walks, Reach, here, next, IsOrdered,
  idle, Reach-IsOrdered,
}
use test_libuv.Looper.Start
use test_libuv.Looper.Start.{Starting, Main, Worker, fresh, Reach-returned, start_race}

-- Handling an event notes the object that it is for.
abbrev note : UvEvent → List ℕ → List ℕ
note e seen = e.target ∷ seen

abbrev first : UvEvent
first = plain_event UvEventType.connect 1000

abbrev second : UvEvent
second = plain_event UvEventType.shutdown 1001

abbrev start : System (List ℕ)
start = idle note Looper.init []

-- Both wait when the loop wakes; then it is closed, and an event that comes behind the walk waits.
abbrev two_wait : System (List ℕ)
two_wait = push note second (push note first start)

abbrev asked : System (List ℕ)
asked = closed note (wake note two_wait)

abbrev too_late : System (List ℕ)
too_late = push note second (walked note asked)

too_late-Reach : Reach note start too_late
unfolding push push_event wake do_event closed close Looper.init
too_late-Reach =
    next
      (next
        (next
          (next (next (next here (pushes start first)) (pushes (push note first start) second))
            (wakes two_wait refl))
          (closes (wake note two_wait)))
        (walks asked refl))
      (pushes (walked note asked) second)

Reach-IsOrdered_example : IsOrdered note [] too_late
Reach-IsOrdered_example = Reach-IsOrdered note Looper.init [] too_late-Reach

-- It is never handled: no wake-up is due.
waits_forever : (too_late.looper.event_queue ≡ second ∷ []) × (too_late.woken ≡ false)
unfolding push push_event wake do_event closed close walked close_walk_cb Looper.init
waits_forever = (refl, refl)

-- The thread has run up to `uv_run` before the main thread goes on.
abbrev early : Starting
early = record {
  main = Main.init_close;
  worker = Worker.entered;
  active = 0;
  inited = true;
  is_closed = false;
}

early-Reach : Start.Reach fresh early
early-Reach =
    Start.next (Start.next (Start.next Start.here (Start.inits refl)) (Start.creates refl))
      (Start.enters refl)

start_race_example :
    (t : Starting) × Start.Reach fresh t
    × (t.main ≡ Main.returned)
    × (t.worker ≡ Worker.exited)
    × (t.is_closed ≡ true)
start_race_example = start_race early early-Reach refl refl

-- The usual way: both handles first.
abbrev usual : Starting
usual = record {
  main = Main.returned;
  worker = Worker.entered;
  active = 2;
  inited = true;
  is_closed = false;
}

usual-Reach : Start.Reach fresh usual
usual-Reach =
    Start.next
      (Start.next
        (Start.next
          (Start.next (Start.next (Start.next Start.here (Start.inits refl)) (Start.creates refl))
            (Start.makes_close refl))
          (Start.makes_event refl))
        (Start.enters refl))
      (Start.returns refl refl)

Reach-returned_example :
    (true ≡ true)
    × (◌≡◌ {A = ℕ} 2 2)
    × (((Worker.entered ≡ Worker.entered) × (false ≡ false))
        ⊎ ((Worker.entered ≡ Worker.running) × (false ≡ false))
        ⊎ ((Worker.entered ≡ Worker.left) × (false ≡ false))
        ⊎ ((Worker.entered ≡ Worker.exited) × (false ≡ true)))
Reach-returned_example = Reach-returned usual usual-Reach refl
