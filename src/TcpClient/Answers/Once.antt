-- ===== src/TcpClient/Answers/Once.antt =====
-- The user of a `CTcpClient` is told of each connection at most once.
use test_libuv.Common.{
  ℕ, ◌+◌, ◌≤◌, ◌≡◌, refl, Bool, true, false, List, [], ◌∷◌, map, arith, ℤ, ap, sym, inl, inr, ◌∙◌,
  if◌then◌else◌,
}
use test_libuv.PacketSync.{Allocator, Outcome, done, fault, unfinished, on_recv_data}
use test_libuv.PacketSync.Receiver.{Outcome-cases}
use test_libuv.TcpClient.{
  TcpClient, tcp, timer, calls_recv, Run, is_time_out, init, attach_looper, on_connect_cb_event,
  connect, connectinl, closeinl, on_handle_close,
}
use test_libuv.TcpClient.Callbacks.{
  connect_time_out_cb, after_connect, after_recv_error, after_recv_data, after_shut_down,
  after_handle_close,
}
use test_libuv.TcpClient.Steps.{IsSafe, quiet, Step-IsSafe, Reach-IsSafe, recv_keeps}
use test_libuv.TcpClient.Steps
use test_libuv.TcpClient.Answers.{
  answers_in, Watched, Step, sets_callback, connects, connect_event, close_event, timer_fires,
  connection_ends, read_fails, read_ends, shut_down, loop_closes, tcp_closed, timer_closed, Reach,
  here, next, attached,
}

answers_in-map : (packs : List (List ℕ)) → answers_in (map calls_recv packs) ≡ 0
answers_in-map [] = refl
answers_in-map (p ∷ ps) = answers_in-map ps

abbrev answers_of : Outcome Run → ℕ
answers_of (done (d, es)) = answers_in es
answers_of fault = 0
answers_of unfinished = 0

-- Received bytes tell the user of no connection.
answers_of-recv :
    (a : Allocator) (fuel : ℕ) (buf : List ℕ) (nread : ℕ) (c : TcpClient)
    → answers_of (after_recv_data a fuel buf nread c) ≡ 0
unfolding after_recv_data
answers_of-recv a fuel buf nread c = elim (Outcome-cases (on_recv_data a fuel c.packet buf nread)) [
  | inl ((p, packs), e) ↦ rw (e, after_recv_data) (ground (arith, answers_in-map packs))
  | inr (inl e) ↦ rw (e, after_recv_data) refl
  | inr (inr e) ↦ rw (e, after_recv_data) refl
]

module _ (a : Allocator) (ecanceled : ℤ) where
  -- A timer that can fire belongs to a connection under way; and what was told, is queued and is still to be
  -- told is no more than what was asked for.
  record IsCounted (w : Watched) : Type 0 where
    safe : IsSafe w.client
    timed : w.timer_on ≡ true → w.client.timer_closing ≡ false → 1 ≤ w.pending
    few :
        w.answers + (w.queued + (if is_time_out w.client.status then 0 else w.pending)) ≤ w.requests

  Step-IsCounted : {w v : Watched} → Step a ecanceled w v → IsCounted w → IsCounted v
  unfolding on_connect_cb_event connect connectinl closeinl connect_time_out_cb after_connect
      after_recv_error after_shut_down on_handle_close after_handle_close
  Step-IsCounted {w} (sets_callback set) i = record {
    safe = record {
      no_timer = i.safe.no_timer;
      timed_out = i.safe.timed_out;
      awaited = i.safe.awaited;
    };
    timed = i.timed;
    few = i.few;
  }
  Step-IsCounted {w} (connects ip port time_out v6) i = record {
    safe = Step-IsSafe a ecanceled (Steps.connects w.client ip port time_out v6) i.safe;
    timed = ground (arith, i.timed);
    few = ground (arith, i.few);
  }
  Step-IsCounted {w} (connect_event addr_code connect_code q) i = record {
    safe = Step-IsSafe a ecanceled (Steps.connect_event w.client addr_code connect_code) i.safe;
    timed = ground (arith, i.timed);
    few = ground (arith, i.few, i.timed, i.safe.timed_out, q);
  }
  Step-IsCounted {w} close_event i = record {
    safe = Step-IsSafe a ecanceled (Steps.close_event w.client) i.safe;
    timed = ground (arith, i.timed);
    few = ground (arith, i.few);
  }
  Step-IsCounted {w} (timer_fires on t) i = record {
    safe = Step-IsSafe a ecanceled (Steps.timer_fires w.client t) i.safe;
    timed = ground (arith, i.timed);
    few = ground (arith, i.few, i.timed, i.safe.timed_out, on, t);
  }
  Step-IsCounted {w} (connection_ends code read_code p h) i = record {
    safe = Step-IsSafe a ecanceled (Steps.connection_ends w.client code read_code) i.safe;
    timed = ground (arith, i.timed);
    few = ground (arith, i.few, i.timed, i.safe.timed_out, p, h);
  }
  Step-IsCounted {w} (read_fails code h) i = record {
    safe = Step-IsSafe a ecanceled (Steps.read_fails w.client code h) i.safe;
    timed = ground (arith, i.timed);
    few = ground (arith, i.few, i.safe.timed_out);
  }
  Step-IsCounted {w} (read_ends {d = d} {es = es} fuel buf nread e) i =
      let (same, awaited, tcp_same, timer_same) = recv_keeps a fuel buf nread w.client e in
      let silent : answers_in es ≡ 0 =
        sym (ap answers_of e) ∙ answers_of-recv a fuel buf nread w.client in
      record {
        safe = Step-IsSafe a ecanceled (Steps.read_ends w.client fuel buf nread e) i.safe;
        timed = ground (arith, i.timed, timer_same);
        few = ground (arith, i.few, same, silent);
      }
  Step-IsCounted {w} shut_down i = record {
    safe = Step-IsSafe a ecanceled (Steps.shut_down w.client) i.safe;
    timed = ground (arith, i.timed);
    few = ground (arith, i.few, i.timed, i.safe.timed_out);
  }
  Step-IsCounted {w} (loop_closes tcp) i = record {
    safe = Step-IsSafe a ecanceled (Steps.loop_closes w.client tcp) i.safe;
    timed = ground (arith, i.timed);
    few = ground (arith, i.few, i.timed, i.safe.timed_out);
  }
  Step-IsCounted {w} (loop_closes timer) i = record {
    safe = Step-IsSafe a ecanceled (Steps.loop_closes w.client timer) i.safe;
    timed = ground (arith, i.timed);
    few = ground (arith, i.few, i.timed, i.safe.timed_out);
  }
  Step-IsCounted {w} (tcp_closed h p) i = record {
    safe = Step-IsSafe a ecanceled (Steps.tcp_closed w.client h) i.safe;
    timed = ground (arith, i.timed);
    few = ground (arith, i.few, i.timed, i.safe.timed_out, p);
  }
  Step-IsCounted {w} (timer_closed h) i = record {
    safe = Step-IsSafe a ecanceled (Steps.timer_closed w.client h) i.safe;
    timed = ground (arith, i.timed);
    few = ground (arith, i.few, i.timed, i.safe.timed_out);
  }

  Reach-IsCounted : {w v : Watched} → Reach a ecanceled w v → IsCounted w → IsCounted v
  Reach-IsCounted here i = i
  Reach-IsCounted (next r step) i = Step-IsCounted step (Reach-IsCounted r i)

  -- From an object that is attached for the first time, in every order of methods, events and callbacks: the
  -- user is told of a connection at most once for each call of `Connect` that has said yes, and not
  -- yet for those whose event waits, nor for those that libuv has still to report and that have not timed out.
  pub Reach-answered_once :
      (next_id packhead : ℕ) (garbage : Bool) (w : Watched)
      → Reach a ecanceled (attached a ecanceled next_id packhead garbage) w
      → w.answers + (w.queued + (if is_time_out w.client.status then 0 else w.pending)) ≤ w.requests
  unfolding init attach_looper
  Reach-answered_once next_id packhead garbage w r =
      let i = Reach-IsCounted r (record {
        safe = Reach-IsSafe a ecanceled next_id packhead garbage _ Steps.here;
        timed = ground arith;
        few = ground arith;
      }) in
      i.few
