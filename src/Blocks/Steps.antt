-- ===== src/Blocks/Steps.antt =====
-- Every order of pushes, wake-ups of the loop and callbacks of writes. libuv calls `AfterSend` once for a
-- request on which `uv_write` has succeeded, in any order.
use test_libuv.Common.{
  ℕ, ◌+◌, ◌≤◌, ◌≡◌, refl, Bool, some, List, [], ◌∷◌, ◌++◌, some_eq, subst, sym, ◌∙◌, arith, ℤ,
  count, count_none,
}
use test_libuv.Event.{UvEventType}
use test_libuv.Blocks.{RequestBlock, System, push, wake, after_send}
use test_libuv.Blocks.Free.{in_events, in_requests}
use test_libuv.Blocks.Owned.{Owns, push-Owns, wake-Owns, after_send-Owns}

pub data Step : System → System → Type 0 where
  pushes : {s : System} (type : UvEventType) (has_bytes : Bool) → Step s (push type has_bytes s)
  wakes : {s s' : System} (code : ℕ → ℤ) → wake code s ≡ some s' → Step s s'
  sent :
      {s s' : System} (r : RequestBlock) (ps rs : List RequestBlock)
      → s.writing ≡ ps ++ (r ∷ rs)
      → after_send r (ps ++ rs) s ≡ some s'
      → Step s s'

pub data Reach (s : System) : System → Type 0 where
  here : Reach s s
  next : {t u : System} → Reach s t → Step t u → Reach s u

-- Before the first event, with addresses from `n` on.
abbrev pub start : ℕ → System
start n = record { heap = record { next = n; live = [] }; event_queue = []; writing = [] }

Step-Owns : {s t : System} → Step s t → Owns (λ x. 0) s → Owns (λ x. 0) t
Step-Owns (pushes type has_bytes) o = push-Owns (λ x. 0) type has_bytes _ o
Step-Owns (wakes {s = s} code e) o =
    let (s', e', o', q) = wake-Owns code s o in subst (Owns (λ x. 0)) (some_eq (sym e' ∙ e)) o'
Step-Owns (sent {s = s} r ps rs w e) o =
    let (s', e', o', q) = after_send-Owns r ps rs s w o in
    subst (Owns (λ x. 0)) (some_eq (sym e' ∙ e)) o'

Reach-Owns : (n : ℕ) {s : System} → Reach (start n) s → Owns (λ x. 0) s
unfolding count in_events in_requests
Reach-Owns n here = record { fresh = λ x. ground arith; owner = λ x. refl }
Reach-Owns n (next r step) = Step-Owns step (Reach-Owns n r)

-- What holds of the blocks between any two of these: each that is allocated stands in one event of the
-- queue or one request under way, and in one place there; the next wake-up and each callback to come have no
-- fault, so no block is freed twice; and when the queue is empty and no request is under way, nothing
-- is left allocated.
pub record IsOwned (s : System) : Type 0 where
  pub in_one_place :
      (x : ℕ) → in_events x s.event_queue + in_requests x s.writing ≡ count x s.heap.live
  pub once : (x : ℕ) → count x s.heap.live ≤ 1
  pub wakes_up : (code : ℕ → ℤ) → (s' : System) × (wake code s ≡ some s') × (s'.event_queue ≡ [])
  pub calls_back :
      (r : RequestBlock) (ps rs : List RequestBlock)
      → s.writing ≡ ps ++ (r ∷ rs)
      → (s' : System) × (after_send r (ps ++ rs) s ≡ some s') × (s'.writing ≡ ps ++ rs)
  pub no_leak : s.event_queue ≡ [] → s.writing ≡ [] → s.heap.live ≡ []

Owns-IsOwned : (s : System) → Owns (λ x. 0) s → IsOwned s
unfolding in_events in_requests
Owns-IsOwned s o = record {
  in_one_place = λ x. omega (arith, o.owner x);
  once = λ x. ground (arith, o.fresh x);
  wakes_up = λ code. let (s', e, o', q) = wake-Owns code s o in (s', e, q);
  calls_back = λ r ps rs w. let (s', e, o', q) = after_send-Owns r ps rs s w o in (s', e, q);
  no_leak = λ q w. count_none s.heap.live (λ x. ground (arith, o.owner x, q, w));
}

-- However events are pushed, the loop wakes and writes end, whatever `uv_write` returns for each event: the
-- blocks are owned so.
pub Reach-IsOwned : (n : ℕ) (s : System) → Reach (start n) s → IsOwned s
Reach-IsOwned n s r = Owns-IsOwned s (Reach-Owns n r)
