-- ===== src/Looper/Start.antt =====
-- `CLooper::InitLooper` and the `WorkThread` that it starts, as two threads. Each call of libuv in
-- `InitLooper` succeeds or fails. Of libuv: `uv_run` returns at once when the loop has no active
-- handle, and goes on while it has one; `uv_async_init` makes one. (That libuv forbids to call it
-- from another thread while the loop runs is left aside.)
use test_libuv.Common.{ℕ, ◌+◌, ◌≡◌, ◌≢◌, refl, ◌⊎◌, Bool, true, false, arith}

-- Where `InitLooper` stands: before `uv_loop_init`, `uv_thread_create` or one of the two
-- `uv_async_init`, in its waiting loop, returned with true, or returned with false.
pub data Main : Type 0 where
  init_loop creating init_close init_event polling returned failed : Main

-- Where `WorkThread` stands: not there yet, started, in front of `uv_run`, in it, behind it, or
-- behind `_is_closed = true`.
pub data Worker : Type 0 where
  absent started entered running left exited : Worker

pub record Starting : Type 0 where
  pub main : Main
  pub worker : Worker
  pub active : ℕ
  pub inited : Bool
  pub is_closed : Bool

pub data Step (s : Starting) : Starting → Type 0 where
  inits : s.main ≡ init_loop → Step s (record s { main = creating })
  fails_init : s.main ≡ init_loop → Step s (record s { main = failed })
  fails_create : s.main ≡ creating → Step s (record s { main = failed })
  fails_close : s.main ≡ init_close → Step s (record s { main = failed })
  fails_event : s.main ≡ init_event → Step s (record s { main = failed })
  creates : s.main ≡ creating → Step s (record s { main = init_close; worker = started })
  makes_close : s.main ≡ init_close → Step s (record s { main = init_event; active = s.active + 1 })
  makes_event : s.main ≡ init_event → Step s (record s { main = polling; active = s.active + 1 })
  returns : s.main ≡ polling → s.inited ≡ true → Step s (record s { main = returned })
  enters : s.worker ≡ started → Step s (record s { worker = entered; inited = true })
  runs : s.worker ≡ entered → s.active ≢ 0 → Step s (record s { worker = running })
  falls_through : s.worker ≡ entered → s.active ≡ 0 → Step s (record s { worker = left })
  ends : s.worker ≡ left → Step s (record s { worker = exited; is_closed = true })

pub data Reach (s : Starting) : Starting → Type 0 where
  here : Reach s s
  next : {t u : Starting} → Reach s t → Step t u → Reach s u

abbrev pub fresh : Starting
fresh = record { main = init_loop; worker = absent; active = 0; inited = false; is_closed = false }

-- How many handles the main thread has made.
abbrev pub made : Main → ℕ
made init_loop = 0
made creating = 0
made init_close = 0
made init_event = 1
made polling = 2
made returned = 2
made failed = 0

abbrev pub is_in : Worker → Bool
is_in entered = true
is_in running = true
is_in left = true
is_in exited = true
is_in _ = false

abbrev pub is_behind : Worker → Bool
is_behind exited = true
is_behind _ = false

record Inv (s : Starting) : Type 0 where
  count : (s.main ≡ failed) ⊎ (s.active ≡ made s.main)
  flag : s.inited ≡ is_in s.worker
  over : s.is_closed ≡ is_behind s.worker
  done_waiting : s.main ≡ returned → s.inited ≡ true
  before : (s.main ≡ init_loop) ⊎ (s.main ≡ creating) → s.worker ≡ absent

Step-Inv : {s t : Starting} → Step s t → Inv s → Inv t
Step-Inv (inits h) v = ground arith
Step-Inv (fails_init h) v = ground arith
Step-Inv (fails_create h) v = ground arith
Step-Inv (fails_close h) v = ground arith
Step-Inv (fails_event h) v = ground arith
Step-Inv (ends h) v = ground arith
Step-Inv (creates h) v = ground arith
Step-Inv (makes_close h) v = ground arith
Step-Inv (makes_event h) v = ground arith
Step-Inv (returns h i) v = ground arith
Step-Inv (enters h) v = ground arith
Step-Inv (runs h a) v = ground arith
Step-Inv (falls_through h a) v = ground arith

Reach-Inv : {s : Starting} → Reach fresh s → Inv s
Reach-Inv here = ground arith
Reach-Inv (next r st) = Step-Inv st (Reach-Inv r)

-- However the two threads interleave, and whichever call of libuv could have failed, when
-- `InitLooper` has returned true, `_inited` is set, the loop has its two handles, and the thread is
-- in front of `uv_run`, in it, behind it, or at its end; `_is_closed` is set exactly in the last
-- case.
pub Reach-returned :
    (s : Starting)
    → Reach fresh s
    → s.main ≡ returned
    → (s.inited ≡ true)
      × (s.active ≡ 2)
      × (((s.worker ≡ entered) × (s.is_closed ≡ false))
          ⊎ ((s.worker ≡ running) × (s.is_closed ≡ false))
          ⊎ ((s.worker ≡ left) × (s.is_closed ≡ false))
          ⊎ ((s.worker ≡ exited) × (s.is_closed ≡ true)))
Reach-returned s r h = ground (arith, Reach-Inv r)

-- The bug: the thread is started before the loop has a handle. From every state in which the thread
-- stands in front of `uv_run` and the loop has no handle yet, `InitLooper` can still come to return
-- true as if all were well, with the loop already over and `_is_closed` set.
pub start_race :
    (s : Starting)
    → Reach fresh s
    → s.main ≡ init_close
    → s.worker ≡ entered
    → (t : Starting) × Reach fresh t
      × (t.main ≡ returned)
      × (t.worker ≡ exited)
      × (t.is_closed ≡ true)
start_race s r h w =
    let v = Reach-Inv r in
    let a : s.active ≡ 0 = ground (arith, v.count) in
    let i : s.inited ≡ true = ground (arith, v.flag) in
    let s0 = record s { worker = left } in
    let s1 = record s0 { worker = exited; is_closed = true } in
    let s2 = record s1 { main = init_event; active = s.active + 1 } in
    let s3 = record s2 { main = polling; active = s.active + 1 + 1 } in
    let s4 = record s3 { main = returned } in
    (
      s4,
      next
          (next (next (next (next r (falls_through w a)) (ends refl)) (makes_close h))
            (makes_event refl))
          (returns refl i),
      refl,
      refl,
      refl,
    )
