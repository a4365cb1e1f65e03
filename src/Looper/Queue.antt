-- ===== src/Looper/Queue.antt =====
-- The queue of `CLooper`.
use test_libuv.Common.{◌≡◌, ◌∙◌, sym, List, [], ◌∷◌, ◌++◌, append-nil, append_assoc}
use test_libuv.Event.{UvEvent}
use test_libuv.Looper.{Looper, push_event, push_all}

pub push_all-queue :
    (es : List UvEvent) (l : Looper) → (push_all es l).event_queue ≡ l.event_queue ++ es
unfolding push_all
push_all-queue [] l = sym (append-nil l.event_queue)
push_all-queue (e ∷ es) l =
    push_all-queue es (push_event e l).0 ∙ append_assoc l.event_queue (e ∷ []) es
