-- ===== src/TcpClient/Answers.antt =====
-- How often a `CTcpClient` tells its user what has become of a connection. Of libuv: `AfterConnect` is
-- called once for each connection that `uv_tcp_connect` has started, with `UV_ECANCELED` when the
-- handle is closing, and before the close callback; a timer fires only if it was started and is not
-- closing.
pub mod Once
mod Tests
use test_libuv.Common.{
  ℕ, suc, ◌+◌, ◌-◌, ◌≤◌, ◌≡◌, refl, Bool, true, false, ◌&&◌, ◌||◌, List, [], ◌∷◌, ◌++◌, map, arith,
  length, ℤ, pos, is_zero, ap, sym, inl, inr, ◌∙◌, if◌then◌else◌,
}
use test_libuv.PacketSync.{Allocator, Outcome, done, fault, unfinished, on_recv_data}
use test_libuv.PacketSync.Receiver.{Outcome-cases}
use test_libuv.TcpClient.{
  TcpClient, Handle, tcp, timer, Effect, calls_conn, calls_recv, Run, is_time_out, init,
  attach_looper, on_connect_cb_event, connect, connectinl, closeinl, on_handle_close,
}
use test_libuv.TcpClient.Callbacks.{
  connect_time_out_cb, after_connect, after_recv_error, after_recv_data, after_shut_down,
  after_handle_close,
}
use test_libuv.TcpClient.Steps.{IsSafe, quiet, Step-IsSafe, Reach-IsSafe, recv_keeps}
use test_libuv.TcpClient.Steps

-- How often the callback for connections is called.
abbrev pub answers_in : List Effect → ℕ
answers_in [] = 0
answers_in (calls_conn status ∷ es) = suc (answers_in es)
answers_in (e ∷ es) = answers_in es

-- An object, how many calls of `Connect` have said yes, how many of their events wait in the queue, how many
-- connections libuv is to report, whether the timer was started, and how often the user was told.
pub record Watched : Type 0 where
  pub client : TcpClient
  pub requests : ℕ
  pub queued : ℕ
  pub pending : ℕ
  pub timer_on : Bool
  pub answers : ℕ

abbrev pub then_is : Watched → Run → Watched
then_is w r = record w { client = r.0; answers = w.answers + answers_in r.1 }

-- `Connect`, and its event.
abbrev pub asked : Bool × Run → Watched → Watched
asked (accepted, r) w = record (then_is w r) {
  requests = w.requests + (if accepted then 1 else 0);
  queued = w.queued + length r.1;
}

abbrev pub started : ℤ → ℤ → Watched → Watched
started addr_code connect_code w =
    let ok = is_zero addr_code && is_zero connect_code in
    record (then_is w (connectinl addr_code connect_code w.client)) {
      queued = w.queued - 1;
      pending = w.pending + (if ok then 1 else 0);
      timer_on = ok || w.timer_on;
    }

abbrev pub ended : ℤ → ℤ → ℤ → Watched → Watched
ended ecanceled code read_code w =
    record (then_is w (after_connect ecanceled code read_code w.client)) { pending = w.pending - 1 }

module _ (a : Allocator) (ecanceled : ℤ) where
  pub data Step (w : Watched) : Watched → Type 0 where
    sets_callback : (set : Bool) → Step w (record w { client = on_connect_cb_event set w.client })
    connects :
        (ip : List ℕ) (port time_out : ℕ) (v6 : Bool)
        → Step w (asked (connect ip port time_out v6 w.client) w)
    connect_event :
        (addr_code connect_code : ℤ) → 1 ≤ w.queued → Step w (started addr_code connect_code w)
    close_event : Step w (then_is w (closeinl w.client))
    timer_fires :
        w.timer_on ≡ true
        → w.client.timer_closing ≡ false
        → Step w (then_is w (connect_time_out_cb w.client))
    connection_ends :
        (code read_code : ℤ)
        → 1 ≤ w.pending
        → (w.client.tcp_closing ≡ true → code ≡ ecanceled)
        → Step w (ended ecanceled code read_code w)
    read_fails :
        (code : ℤ)
        → w.client.tcp_closing ≡ false
        → Step w (then_is w (after_recv_error code w.client))
    read_ends :
        {d : TcpClient} {es : List Effect} (fuel : ℕ) (buf : List ℕ) (nread : ℕ)
        → after_recv_data a fuel buf nread w.client ≡ done (d, es)
        → Step w (then_is w (d, es))
    shut_down : Step w (then_is w (after_shut_down w.client))
    loop_closes : (h : Handle) → Step w (then_is w (on_handle_close h w.client))
    tcp_closed :
        w.client.tcp_closing ≡ true
        → w.pending ≡ 0
        → Step w (then_is w (after_handle_close quiet tcp w.client))
    timer_closed :
        w.client.timer_closing ≡ true → Step w (then_is w (after_handle_close quiet timer w.client))

  pub data Reach (w : Watched) : Watched → Type 0 where
    here : Reach w w
    next : {u v : Watched} → Reach w u → Step u v → Reach w v

  -- An object that is attached for the first time.
  abbrev pub attached : ℕ → ℕ → Bool → Watched
  attached next_id packhead garbage = record {
    client = (attach_looper (pos 0) (pos 0) (init a next_id packhead garbage).0).1;
    requests = 0;
    queued = 0;
    pending = 0;
    timer_on = false;
    answers = 0;
  }
