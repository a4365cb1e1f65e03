-- ===== src/Looper/Order.antt =====
-- The threads of a program and one loop: no event is lost, handled twice or out of order.
use test_libuv.Common.{
  ◌≡◌, ◌≢◌, refl, sym, ap, ◌∙◌, Bool, true, false, ◌⊎◌, inl, inr, List, [], ◌∷◌, ◌++◌, append-nil,
  append_assoc, arith, not, if◌then◌else◌,
}
use test_libuv.Event.{UvEvent}
use test_libuv.Looper.{
  Looper, event_handle, looper_close, Effect, sends, push_event, close, handle_all, do_event,
  this_loop, left_alone, closed_here, asked_object, close_walk_cb,
}

-- A loop whose thread is in `uv_run`, the state that its events change, whether `AsyncEvent` and
-- `AsyncCB` are to be called, whether `_async_event_handle` is not closed, and what was pushed so
-- far and handled so far. libuv promises a call after each `uv_async_send` on a handle that is not
-- closed, may make one for several, and makes none any more once `uv_close` was called on the
-- handle.
pub record System (S : Type 0) : Type 0 where
  pub looper : Looper
  pub state : S
  pub woken : Bool
  pub close_asked : Bool
  pub event_open : Bool
  pub pushed : List UvEvent
  pub handled : List UvEvent

-- What a list of effects asks of the handle for events, and of the one for the close.
abbrev pub asks : List Effect → Bool → Bool
asks [] b = b
asks (sends event_handle ∷ es) b = true
asks (sends looper_close ∷ es) b = asks es b

abbrev pub asks_close : List Effect → Bool → Bool
asks_close [] b = b
asks_close (sends event_handle ∷ es) b = asks_close es b
asks_close (sends looper_close ∷ es) b = true

module _ {S : Type 0} (handle : UvEvent → S → S) where
  unfoldable pub push : UvEvent → System S → System S
  unfolding push_event
  push e s =
      let (l, es) = push_event e s.looper in
      record s {
        looper = l;
        woken = if s.event_open then asks es s.woken else false;
        pushed = s.pushed ++ (e ∷ []);
      }

  -- libuv calls `AsyncEvent`, which calls `DoEvent`.
  unfoldable pub wake : System S → System S
  wake s =
      let (l, state) = do_event handle s.looper s.state in
      record s {
        looper = l;
        state = state;
        woken = false;
        handled = s.handled ++ s.looper.event_queue;
      }

  unfoldable pub closed : System S → System S
  closed s =
      let (l, es) = close s.looper in
      record s { looper = l; close_asked = asks_close es s.close_asked }

  -- libuv calls `AsyncCB`, which walks over the handles of the loop: `CloseWalkCB` closes the two
  -- of the loop itself, and a wake-up that was asked for and has not come never comes.
  unfoldable pub walked : System S → System S
  unfolding close_walk_cb
  walked s = elim (close_walk_cb this_loop (not s.event_open)) [
    | left_alone ↦ record s { close_asked = false }
    | closed_here ↦ record s { close_asked = false; event_open = false; woken = false }
    | asked_object ↦ record s { close_asked = false }
  ]

  pub data Step : System S → System S → Type 0 where
    pushes : (s : System S) (e : UvEvent) → Step s (push e s)
    wakes : (s : System S) → s.woken ≡ true → Step s (wake s)
    closes : (s : System S) → Step s (closed s)
    walks : (s : System S) → s.close_asked ≡ true → Step s (walked s)

  pub data Reach (s : System S) : System S → Type 0 where
    here : Reach s s
    next : {t u : System S} → Reach s t → Step t u → Reach s u

  -- What was pushed is what was handled and then what waits; the state is that of the handled
  -- events, in order; and while one waits, a wake-up is due, unless a `Close` has led to the walk.
  pub record IsOrdered (start : S) (s : System S) : Type 0 where
    pub no_loss : s.pushed ≡ s.handled ++ s.looper.event_queue
    pub in_order : s.state ≡ handle_all handle s.handled start
    pub due : (s.looper.event_queue ≡ []) ⊎ ((s.woken ≡ true) ⊎ (s.event_open ≡ false))
    pub asked : s.close_asked ≡ true → s.looper.is_closed ≡ true
    pub walked_after : s.event_open ≡ false → s.looper.is_closed ≡ true

  handle_all-append :
      (xs ys : List UvEvent) (s : S)
      → handle_all handle (xs ++ ys) s ≡ handle_all handle ys (handle_all handle xs s)
  unfolding handle_all
  handle_all-append [] ys s = refl
  handle_all-append (x ∷ xs) ys s = handle_all-append xs ys (handle x s)

  pushed_due :
      {A : Type 0} (open_now : Bool)
      → A ⊎ (((if open_now then true else false) ≡ true) ⊎ (open_now ≡ false))
  pushed_due true = inr (inl refl)
  pushed_due false = inr (inr refl)

  Step-IsOrdered : (start : S) {s t : System S} → Step s t → IsOrdered start s → IsOrdered start t
  unfolding push wake closed walked push_event do_event close close_walk_cb
  Step-IsOrdered start (pushes s e) o = record {
    no_loss =
        ap (λ l. l ++ (e ∷ [])) o.no_loss ∙ append_assoc s.handled s.looper.event_queue (e ∷ []);
    in_order = o.in_order;
    due = pushed_due s.event_open;
    asked = o.asked;
    walked_after = o.walked_after;
  }
  Step-IsOrdered start (wakes s h) o = record {
    no_loss = o.no_loss ∙ sym (append-nil (s.handled ++ s.looper.event_queue));
    in_order =
        ap (handle_all handle s.looper.event_queue) o.in_order
        ∙ sym (handle_all-append s.handled s.looper.event_queue start);
    due = inl refl;
    asked = o.asked;
    walked_after = o.walked_after;
  }
  Step-IsOrdered start (closes s) o = record {
    no_loss = ground (arith, o.no_loss);
    in_order = ground (arith, o.in_order);
    due = ground (arith, o.due);
    asked = ground (arith, o.asked);
    walked_after = ground (arith, o.walked_after);
  }
  Step-IsOrdered start (walks s h) o = record {
    no_loss = ground (arith, o.no_loss);
    in_order = ground (arith, o.in_order);
    due = ground (arith, o.due);
    asked = ground (arith, o.asked);
    walked_after = ground (arith, o.asked h);
  }

  -- The state before anything was pushed, with the loop running and its two handles open.
  abbrev pub idle : Looper → S → System S
  idle l start = record {
    looper = record l { event_queue = [] };
    state = start;
    woken = false;
    close_asked = false;
    event_open = true;
    pushed = [];
    handled = [];
  }

  -- However the threads push and close, the loop wakes, and after a `Close` the walk closes the
  -- handles, starting from an empty queue and a running loop with its handles: the events that were
  -- pushed are those that were handled, followed by those that wait; the state is what handling the
  -- former in the order of pushing gives; while any waits, a wake-up is due, unless the walk has
  -- closed the handle for events; and a walk is asked for, or has been, only if `_is_closed` is
  -- set.
  pub Reach-IsOrdered :
      (l : Looper) (start : S) {s : System S} → Reach (idle l start) s → IsOrdered start s
  unfolding handle_all
  Reach-IsOrdered l start here = record {
    no_loss = refl;
    in_order = refl;
    due = inl refl;
    asked = λ h. ground arith;
    walked_after = λ h. ground arith;
  }
  Reach-IsOrdered l start (next r st) = Step-IsOrdered start st (Reach-IsOrdered l start r)

  -- From every such state in which an event waits and the handle is open, the loop can wake, and
  -- its one wake-up handles all that was ever pushed, in order, and leaves nothing waiting.
  pub wake-handles_all :
      (l : Looper) (start : S) (s : System S)
      → Reach (idle l start) s
      → s.looper.event_queue ≢ []
      → s.event_open ≡ true
      → Step s (wake s)
        × ((wake s).state ≡ handle_all handle s.pushed start)
        × ((wake s).looper.event_queue ≡ [])
  unfolding wake do_event
  wake-handles_all l start s r waiting handle_open =
      let o = Reach-IsOrdered l start r in
      (
        wakes s (ground (arith, o.due)),
        ap (handle_all handle s.looper.event_queue) o.in_order
            ∙ sym (handle_all-append s.handled s.looper.event_queue start)
            ∙ ap (λ q. handle_all handle q start) (sym o.no_loss),
        refl,
      )
