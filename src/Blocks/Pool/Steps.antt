-- ===== src/Blocks/Pool/Steps.antt =====
-- Every order of sends and callbacks of writes on a server. libuv calls `AfterSend` once for a
-- request on which `uv_write` has succeeded, in any order.
use test_libuv.Common.{
  ℕ, ◌+◌, ◌≤◌, ◌≡◌, ◌∙◌, sym, subst, Bool, some, some_eq, List, [], ◌∷◌, ◌++◌, arith, ℤ, count,
  count_none, length,
}
use test_libuv.Blocks.Pool.{PoolRequest, PoolSystem, sendinl, after_send, destroy}
use test_libuv.Blocks.Pool.Owned.{in_pool, Owns, sendinl-Owns, after_send-Owns, destroy-Owns}

pub data Step : PoolSystem → PoolSystem → Type 0 where
  sends :
      {s s' : PoolSystem} (moves : Bool) (code : ℤ) (size : ℕ)
      → sendinl moves code size s ≡ some s'
      → Step s s'
  sent :
      {s s' : PoolSystem} (p : PoolRequest) (ps rs : List PoolRequest)
      → s.writing ≡ ps ++ (p ∷ rs)
      → after_send p (ps ++ rs) s ≡ some s'
      → Step s s'

pub data Reach (s : PoolSystem) : PoolSystem → Type 0 where
  here : Reach s s
  next : {t u : PoolSystem} → Reach s t → Step t u → Reach s u

-- Before the first send, with addresses from `n` on.
abbrev pub start : ℕ → PoolSystem
start n = record { heap = record { next = n; live = [] }; available = []; writing = [] }

Step-Owns : {s t : PoolSystem} → Step s t → Owns 21 (λ x. 0) s → Owns 21 (λ x. 0) t
Step-Owns (sends {s = s} moves code size e) o =
    let (s', e', o') = sendinl-Owns (λ x. 0) moves code size s o in
    subst (Owns 21 (λ x. 0)) (some_eq (sym e' ∙ e)) o'
Step-Owns (sent {s = s} p ps rs w e) o =
    let (s', e', o', q) = after_send-Owns (λ x. 0) p ps rs s w o in
    subst (Owns 21 (λ x. 0)) (some_eq (sym e' ∙ e)) o'

Reach-Owns : (n : ℕ) {s : PoolSystem} → Reach (start n) s → Owns 21 (λ x. 0) s
unfolding count in_pool
Reach-Owns n here = record {
  fresh = λ x. ground arith;
  owner = λ x. omega arith;
  bounded = omega arith;
}
Reach-Owns n (next r step) = Step-Owns step (Reach-Owns n r)

-- What holds of the requests between any two of these: each block that is allocated stands in one
-- request of the pool or under way, and in one place there, so no send writes to a request that
-- libuv has; the next send and each callback to come have no fault, so nothing is used or freed
-- that is not allocated; the pool has at most 21 requests; and when none is under way, the
-- destructor leaves nothing allocated.
pub record IsKept (s : PoolSystem) : Type 0 where
  pub in_one_place : (x : ℕ) → in_pool x s.available + in_pool x s.writing ≡ count x s.heap.live
  pub once : (x : ℕ) → count x s.heap.live ≤ 1
  pub bounded : length s.available ≤ 21
  pub can_send :
      (moves : Bool) (code : ℤ) (size : ℕ)
      → (s' : PoolSystem) × (sendinl moves code size s ≡ some s')
  pub calls_back :
      (p : PoolRequest) (ps rs : List PoolRequest)
      → s.writing ≡ ps ++ (p ∷ rs)
      → (s' : PoolSystem) × (after_send p (ps ++ rs) s ≡ some s') × (s'.writing ≡ ps ++ rs)
  pub no_leak : s.writing ≡ [] → (s' : PoolSystem) × (destroy s ≡ some s') × (s'.heap.live ≡ [])

Owns-IsKept : (s : PoolSystem) → Owns 21 (λ x. 0) s → IsKept s
unfolding in_pool
Owns-IsKept s o = record {
  in_one_place = λ x. omega (arith, o.owner x);
  once = λ x. ground (arith, o.fresh x);
  bounded = o.bounded;
  can_send =
      λ moves code size. let (s', e, o') = sendinl-Owns (λ x. 0) moves code size s o in (s', e);
  calls_back =
      λ p ps rs w. let (s', e, o', q) = after_send-Owns (λ x. 0) p ps rs s w o in (s', e, q);
  no_leak = λ w.
      let (s', e, c) = destroy-Owns (λ x. 0) s o in
      (s', e, count_none s'.heap.live (λ x. ground (arith, c x, w)));
}

-- However a server sends, to whichever session and at whatever size, whatever `uv_write` returns,
-- and whenever the writes end: the requests are kept so.
pub Reach-IsKept : (n : ℕ) (s : PoolSystem) → Reach (start n) s → IsKept s
Reach-IsKept n s r = Owns-IsKept s (Reach-Owns n r)
