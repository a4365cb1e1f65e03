-- ===== src/UvThread.antt =====
-- `CUVThread` of uv/uv_utils.h. The thread itself, `uv_thread_create` and `uv_thread_join`, is
-- recorded; the function and its argument are handed on.
pub mod Life
mod Tests
use test_libuv.Common.{Bool, true, false, not, List, [], ◌∷◌, ◌++◌, if◌then◌else◌, ℤ}

-- `isrunning_`.
pub record UvThread : Type 0 where
  pub is_running : Bool

-- `uv_thread_create` with the code that it returns, and `uv_thread_join`.
pub data Effect : Type 0 where
  creates : ℤ → Effect
  joins : Effect

-- The constructor.
pub init : UvThread
init = record { is_running = false }

-- `Start`: the code is not looked at.
pub start : ℤ → UvThread → UvThread × List Effect
start code t = if t.is_running then (t, []) else (record t { is_running = true }, creates code ∷ [])

pub stop : UvThread → UvThread × List Effect
stop t = if not t.is_running then (t, []) else (record t { is_running = false }, joins ∷ [])

-- The destructor.
pub destroy : UvThread → UvThread × List Effect
destroy t = (record t { is_running = false }, if t.is_running then joins ∷ [] else [])

pub data Call : Type 0 where
  starts : ℤ → Call
  stops : Call

pub call : Call → UvThread → UvThread × List Effect
unfolding start stop
call (starts code) t = start code t
call stops t = stop t

-- The calls of a user, one after the other, and the destructor.
pub life : List Call → UvThread → UvThread × List Effect
unfolding destroy call
life [] t = destroy t
life (x ∷ xs) t = let (t', es) = call x t in let (t'', more) = life xs t' in (t'', es ++ more)
