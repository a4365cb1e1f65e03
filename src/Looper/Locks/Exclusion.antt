-- ===== src/Looper/Locks/Exclusion.antt =====
-- The mutex keeps `PushEvent` and `DoEvent` apart, and no event is lost.
use test_libuv.Common.{
  ℕ, ◌≡◌, ◌≢◌, refl, sym, ap, ◌∙◌, Bool, true, false, ◌⊎◌, inl, inr, List, [], ◌∷◌, ◌++◌,
  append_assoc, arith, ==_refl,
}
use test_libuv.Event.{UvEvent}
use test_libuv.Looper.{handle_all}
use test_libuv.Looper.Locks.{
  Pusher, outside, locked, queued, LoopThread, polls, called, holds, handled_front, pusher,
  the_loop, Threads, move, Step, locks, pushes, sends, unlocks, loop_wakes, loop_locks,
  loop_handles, loop_pops, loop_unlocks, Reach, here, next, fresh,
}

-- The events that are in the queue and not handled yet.
abbrev pub waits : LoopThread → List UvEvent → List UvEvent
waits handled_front (e ∷ rest) = rest
waits handled_front [] = []
waits polls queue = queue
waits called queue = queue
waits holds queue = queue

-- The thread of the loop is inside of its lock; or it will look at the queue.
abbrev pub is_inside : LoopThread → Bool
is_inside holds = true
is_inside handled_front = true
is_inside _ = false

abbrev pub will_look : LoopThread → Bool
will_look polls = false
will_look _ = true

-- Nothing waits, or the loop is to look at the queue, or some thread is about to wake it.
abbrev pub IsDue : LoopThread → List UvEvent → Bool → (ℕ → Pusher) → Type 0
IsDue l queue woken at =
    (waits l queue ≡ []) ⊎ ((woken ≡ true) ⊎ ((will_look l ≡ true) ⊎ ((i : ℕ) × (at i ≡ queued))))

-- A step of a thread that is not about to wake the loop.
IsDue-move :
    (l : LoopThread) (queue : List UvEvent) (woken : Bool) (at : ℕ → Pusher) (i : ℕ) (p : Pusher)
    → at i ≢ queued
    → IsDue l queue woken at
    → IsDue l queue woken (move at i p)
IsDue-move l queue woken at i p n (inl h) = inl h
IsDue-move l queue woken at i p n (inr (inl h)) = inr (inl h)
IsDue-move l queue woken at i p n (inr (inr (inl h))) = inr (inr (inl h))
IsDue-move l queue woken at i p n (inr (inr (inr (k, h)))) = inr (inr (inr (k, ground arith)))

module _ {S : Type 0} (handle : UvEvent → S → S) (start : S) where
  -- A thread that is inside has the mutex; the events are those handled and then those that wait;
  -- the state is that of the handled ones; and while one waits, the loop is to look at the queue.
  pub record IsExclusive (s : Threads S) : Type 0 where
    pub pushers : (i : ℕ) → (s.at i ≡ outside) ⊎ (s.mutex ≡ pusher i)
    pub loop : (is_inside s.loop_at ≡ false) ⊎ (s.mutex ≡ the_loop)
    pub holder : (i : ℕ) → s.mutex ≡ pusher i → s.at i ≢ outside
    pub loop_holder : s.mutex ≡ the_loop → is_inside s.loop_at ≡ true
    pub front : s.loop_at ≡ handled_front → s.event_queue ≢ []
    pub no_loss : s.pushed ≡ s.handled ++ waits s.loop_at s.event_queue
    pub in_order : s.state ≡ handle_all handle s.handled start
    pub due : IsDue s.loop_at s.event_queue s.woken s.at

  waits-append :
      (l : LoopThread) (queue : List UvEvent) (e : UvEvent)
      → is_inside l ≡ false
      → waits l (queue ++ (e ∷ [])) ≡ waits l queue ++ (e ∷ [])
  waits-append polls queue e h = refl
  waits-append called queue e h = refl
  waits-append holds queue e h = cc
  waits-append handled_front queue e h = cc

  handle_all-append :
      (xs ys : List UvEvent) (s : S)
      → handle_all handle (xs ++ ys) s ≡ handle_all handle ys (handle_all handle xs s)
  unfolding handle_all
  handle_all-append [] ys s = refl
  handle_all-append (x ∷ xs) ys s = handle_all-append xs ys (handle x s)

  Step-IsExclusive : {s t : Threads S} → Step handle s t → IsExclusive s → IsExclusive t
  unfolding handle_all
  Step-IsExclusive {s} (locks i e out free) o = record {
    pushers = λ j. ground (arith, o.pushers j);
    loop = ground (arith, o.loop);
    holder = λ j m. ground (arith, o.holder j, o.pushers j, o.loop);
    loop_holder = λ m. ground (arith, o.loop_holder, o.loop);
    front = λ m. ground (arith, o.front, o.loop);
    no_loss = o.no_loss;
    in_order = o.in_order;
    due = IsDue-move s.loop_at s.event_queue s.woken s.at i (locked e) (ground arith) o.due;
  }
  Step-IsExclusive {s} (pushes i e p) o = record {
    pushers = λ j. ground (arith, o.pushers i, o.pushers j);
    loop = ground (arith, o.loop);
    holder = λ j m. ground (arith, o.holder j, o.pushers j, o.loop);
    loop_holder = λ m. ground (arith, o.loop_holder, o.loop);
    front = λ m. ground (arith, o.front, o.loop);
    no_loss =
        ap (λ l. l ++ (e ∷ [])) o.no_loss
        ∙ append_assoc s.handled (waits s.loop_at s.event_queue) (e ∷ [])
        ∙ ap (◌++◌ s.handled)
            (sym (waits-append s.loop_at s.event_queue e (ground (arith, o.pushers i, o.loop))));
    in_order = o.in_order;
    due = inr (inr (inr (i, rw (==_refl i))));
  }
  Step-IsExclusive {s} (sends i p) o = record {
    pushers = λ j. ground (arith, o.pushers i, o.pushers j);
    loop = o.loop;
    holder = λ j m. ground (arith, o.holder j, o.pushers j, o.loop);
    loop_holder = λ m. ground (arith, o.loop_holder, o.loop);
    front = λ m. ground (arith, o.front, o.loop);
    no_loss = o.no_loss;
    in_order = o.in_order;
    due = inr (inl refl);
  }
  Step-IsExclusive {s} (unlocks i p) o = record {
    pushers = λ j. ground (arith, o.pushers i, o.pushers j);
    loop = ground (arith, o.pushers i, o.loop);
    holder = λ j m. ground (arith, o.holder j, o.pushers j, o.loop);
    loop_holder = λ m. ground (arith, o.loop_holder, o.loop);
    front = λ m. ground (arith, o.front, o.loop);
    no_loss = o.no_loss;
    in_order = o.in_order;
    due = IsDue-move s.loop_at s.event_queue s.woken s.at i outside (ground arith) o.due;
  }
  Step-IsExclusive {s} (loop_wakes l w) o = record {
    pushers = o.pushers;
    loop = inl refl;
    holder = λ j m. ground (arith, o.holder j, o.pushers j, o.loop);
    loop_holder = λ m. ground (arith, o.loop_holder, o.loop);
    front = λ m. ground (arith, o.front, o.loop);
    no_loss = ground (arith, o.no_loss);
    in_order = o.in_order;
    due = inr (inr (inl refl));
  }
  Step-IsExclusive {s} (loop_locks l free) o = record {
    pushers = λ j. ground (arith, o.pushers j);
    loop = inr refl;
    holder = λ j m. ground (arith, o.holder j, o.pushers j, o.loop);
    loop_holder = λ m. ground (arith, o.loop_holder, o.loop);
    front = λ m. ground (arith, o.front, o.loop);
    no_loss = ground (arith, o.no_loss);
    in_order = o.in_order;
    due = inr (inr (inl refl));
  }
  Step-IsExclusive {s} (loop_handles e rest l q) o = record {
    pushers = o.pushers;
    loop = ground (arith, o.loop);
    holder = λ j m. ground (arith, o.holder j, o.pushers j, o.loop);
    loop_holder = λ m. ground (arith, o.loop_holder, o.loop);
    front = λ m. ground (arith, o.front, o.loop);
    no_loss = ground (arith, o.no_loss, append_assoc s.handled (e ∷ []) rest);
    in_order = ap (handle e) o.in_order ∙ sym (handle_all-append s.handled (e ∷ []) start);
    due = inr (inr (inl refl));
  }
  Step-IsExclusive {s} (loop_pops e rest l q) o = record {
    pushers = o.pushers;
    loop = ground (arith, o.loop);
    holder = λ j m. ground (arith, o.holder j, o.pushers j, o.loop);
    loop_holder = λ m. ground (arith, o.loop_holder, o.loop);
    front = λ m. ground (arith, o.front, o.loop);
    no_loss = ground (arith, o.no_loss);
    in_order = o.in_order;
    due = inr (inr (inl refl));
  }
  Step-IsExclusive {s} (loop_unlocks l q) o = record {
    pushers = λ j. ground (arith, o.pushers j, o.loop);
    loop = inl refl;
    holder = λ j m. ground (arith, o.holder j, o.pushers j, o.loop);
    loop_holder = λ m. ground (arith, o.loop_holder, o.loop);
    front = λ m. ground (arith, o.front, o.loop);
    no_loss = ground (arith, o.no_loss);
    in_order = o.in_order;
    due = inl q;
  }

  -- `PushEvent` of any number of threads and `DoEvent`, interleaved statement by statement under
  -- the mutex, from an empty queue: a thread that is inside has the mutex; the events pushed are
  -- those handled and then those that wait, in order, and the state is that of the former; and
  -- while an event waits, the loop is at `DoEvent` or woken, or a thread is about to wake it.
  pub Reach-IsExclusive : {s : Threads S} → Reach handle (fresh start) s → IsExclusive s
  unfolding handle_all
  Reach-IsExclusive here = record {
    pushers = λ i. inl refl;
    loop = inl refl;
    holder = λ i. cc;
    loop_holder = λ m. cc;
    front = λ m. cc;
    no_loss = refl;
    in_order = refl;
    due = inl refl;
  }
  Reach-IsExclusive (next r st) = Step-IsExclusive st (Reach-IsExclusive r)
