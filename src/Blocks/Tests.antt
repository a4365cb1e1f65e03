-- ===== src/Blocks/Tests.antt =====
-- A write that is sent, one that `uv_write` refuses, and a shutdown.
use test_libuv.Common.{
  ℕ, ◌==◌, ◌≡◌, refl, true, false, none, some, [], ◌∷◌, ℤ, pos, negsuc, if◌then◌else◌, take_out,
}
use test_libuv.Event.{UvEventType}
use test_libuv.Blocks.{
  System, free, create_uv_event, free_uv_event, alloc_write_param, free_write_param, push, sendinl,
  do_event, handle_all, wake, after_send,
}
use test_libuv.Blocks.Steps.{here, next, pushes, wakes, sent, start, IsOwned, Reach-IsOwned}

twice : free 0 (record { next = 1; live = [] }) ≡ none
unfolding free
twice = refl

abbrev refuses_second : ℕ → ℤ
refuses_second x = if x == 2 then negsuc 0 else pos 0

abbrev three_events : System
unfolding push create_uv_event
three_events =
    push UvEventType.shutdown false
      (push UvEventType.write true (push UvEventType.write true (start 0)))

-- The request of the first write is under way in the blocks 5 and 6; all others are freed.
abbrev one_write : System
one_write = record {
  heap = record { next = 9; live = 6 ∷ 5 ∷ [] };
  event_queue = [];
  writing = record { address = 5; base = 6 } ∷ [];
}

woken : wake refuses_second three_events ≡ some one_write
unfolding wake handle_all do_event sendinl alloc_write_param free_write_param free_uv_event free
    take_out push create_uv_event
woken = refl

abbrev all_done : System
all_done = record { heap = record { next = 9; live = [] }; event_queue = []; writing = [] }

called_back : after_send (record { address = 5; base = 6 }) [] one_write ≡ some all_done
unfolding after_send free_write_param free take_out
called_back = refl

Reach-IsOwned_example : IsOwned all_done
unfolding push create_uv_event
Reach-IsOwned_example = Reach-IsOwned 0 all_done (
    next
      (next
        (next (next (next here (pushes UvEventType.write true)) (pushes UvEventType.write true))
          (pushes UvEventType.shutdown false))
        (wakes refuses_second woken))
      (sent (record { address = 5; base = 6 }) [] [] refl called_back))
