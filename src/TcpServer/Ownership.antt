-- ===== src/TcpServer/Ownership.antt =====
-- `CTcpServer`: who owns a session context. Each one that was ever allocated stands in exactly one
-- place: in one session of the map, in the idle list once, or among the freed.
use test_libuv.Common.{
  hit, ℕ, suc, ◌+◌, ◌≤◌, ◌≡◌, refl, true, Option, none, some, List, [], ◌∷◌, ◌++◌, ltb,
  if◌then◌else◌, arith, ℤ, length, length-append, if_elim, not, is_zero,
}
use test_libuv.PacketSync.{Allocator}
use test_libuv.TcpServer.{
  SessionCtx, Session, TcpServer, Effect, find, erase, recycle, close_found, session_handle_close,
  ErrMsg, uv_error, active, closing, addresses, destroy,
}
use test_libuv.TcpServer.Accept.{
  take_from, open_session, init_session, accept_on, accept_connection,
}
use test_libuv.TcpServer.Maps.{
  IsMap, in_map, in_idle, in_idle-append, insert-IsMap, in_map-insert, erase-IsMap, in_map-erase,
}

unfoldable pub in_freed : ℕ → List ℕ → ℕ
in_freed x [] = 0
in_freed x (y ∷ ys) = hit x y + in_freed x ys

-- In how many places a context stands.
abbrev pub places : ℕ → TcpServer → ℕ
places x s = in_map x s.session_map + in_idle x s.idle + in_freed x s.freed

abbrev pub allocated : ℕ → TcpServer → ℕ
allocated x s = if ltb x s.heap then 1 else 0

-- The contexts that were allocated, and no others, stand in one place each, the map's keys are ids
-- that were given out, and the idle list is as long as the code lets it become.
unfoldable pub IsSound : TcpServer → Type 0
IsSound s =
    ((x : ℕ) → places x s ≡ allocated x s)
    × IsMap 1 (suc s.last_id) s.session_map
    × length s.idle ≤ 21

-- The same while a handler holds the context at an address, and the idle list has at most `n`.
Holding : ℕ → ℕ → TcpServer → Type 0
Holding n address s =
    ((x : ℕ) → hit x address + places x s ≡ allocated x s)
    × IsMap 1 (suc s.last_id) s.session_map
    × length s.idle ≤ n

take_from-Holding :
    (a : Allocator) (idle : List SessionCtx) (s : TcpServer)
    → s.idle ≡ idle
    → IsSound s
    → let (ctx, s1) = take_from a idle s in Holding 20 ctx.address s1
unfolding take_from Holding IsSound in_idle
take_from-Holding a [] s e (h, m, l) = (λ x. ground (arith, h x, e), m, ground (arith, e))
take_from-Holding a (ctx ∷ idle) s e (h, m, l) = (λ x. ground (arith, h x, e), m, ground (arith, e))

give_back :
    (ctx : SessionCtx) (s : TcpServer)
    → Holding 20 ctx.address s
    → IsSound (record s { idle = s.idle ++ (ctx ∷ []) })
unfolding IsSound Holding in_idle
give_back ctx s (h, m, l) = (
  λ x. omega (arith, h x, in_idle-append x s.idle (ctx ∷ [])),
  m,
  omega (arith, length-append s.idle (ctx ∷ [])),
)

-- `recycle` keeps the context or frees it, so the list stays within its bound. `m` is the map once
-- the session is out of it.
recycle-IsSound :
    (ctx : SessionCtx) (m : List (ℕ × Session)) (s : TcpServer)
    → Holding 21 ctx.address (record s { session_map = m })
    → IsSound (record (recycle ctx s) { session_map = m })
unfolding recycle IsSound Holding in_freed
recycle-IsSound ctx m s (h, k, l) =
    if_elim (λ s'. IsSound (record s' { session_map = m })) (ltb 20 (length s.idle))
      (λ t. (λ x. omega (arith, h x), k, l))
      (λ t. give_back ctx (record s { session_map = m }) (h, k, ground (arith, t)))

recycle_held :
    (ctx : SessionCtx) (s : TcpServer) → Holding 20 ctx.address s → IsSound (recycle ctx s)
unfolding recycle IsSound Holding in_freed
recycle_held ctx s (h, k, l) =
    if_elim IsSound (ltb 20 (length s.idle)) (λ t. (λ x. omega (arith, h x), k, omega arith))
      (λ t. give_back ctx s (h, k, l))

set_errmsg : (e : ErrMsg) (s : TcpServer) → IsSound s → IsSound (record s { errmsg = e })
unfolding IsSound
set_errmsg e s h = h

open_session-IsSound :
    (a : Allocator) (ctx : SessionCtx) (s : TcpServer)
    → Holding 20 ctx.address s
    → IsSound (open_session a ctx s).0
unfolding open_session init_session IsSound Holding
open_session-IsSound a ctx s (h, m, l) =
    let id = suc s.last_id in
    let v = init_session (record ctx { client_id = id }) s.looper in
    (
      λ x. omega (arith, h x, in_map-insert x 1 id v s.session_map m),
      insert-IsMap 1 id v s.session_map refl m,
      omega arith,
    )

-- The rest of `AcceptConnection`, on the context that it has taken.
accept_on-IsSound :
    (a : Allocator) (init_code accept_code read_code : ℤ) (ctx : SessionCtx) (s : TcpServer)
    → Holding 20 ctx.address s
    → IsSound (accept_on a init_code accept_code read_code ctx s).0
unfolding accept_on
accept_on-IsSound a init_code accept_code read_code ctx s h =
    let P : TcpServer × List Effect → Type 0 = λ r. IsSound r.0 in
    let ctx1 = record ctx { handle = active } in
    let ctx2 = record ctx1 {
      packet = record ctx.packet { head = s.packet_head; has_callback = true };
    } in
    let ctx3 = record ctx2 { handle = closing } in
    if_elim P (not (is_zero init_code))
      (λ t.
        set_errmsg (uv_error init_code) (record s { idle = s.idle ++ (ctx ∷ []) })
          (give_back ctx s h))
      (λ t.
        if_elim P (not (is_zero accept_code))
          (λ t.
            set_errmsg (uv_error accept_code) (record s { idle = s.idle ++ (ctx1 ∷ []) })
              (give_back ctx1 s h))
          (λ t.
            if_elim P (not (is_zero read_code))
              (λ t. set_errmsg (uv_error read_code) (recycle ctx3 s) (recycle_held ctx3 s h))
              (λ t. open_session-IsSound a ctx2 s h)))

-- A connection, however far it comes, leaves every context in one place.
pub accept-IsSound :
    (a : Allocator) (status init_code accept_code read_code : ℤ) (s : TcpServer)
    → IsSound s
    → IsSound (accept_connection a status init_code accept_code read_code s).0
unfolding accept_connection
accept-IsSound a status init_code accept_code read_code s h =
    if_elim (λ (r : TcpServer × List Effect). IsSound r.0) (not (is_zero status))
      (λ t. set_errmsg (uv_error status) s h)
      (λ t.
        accept_on-IsSound a init_code accept_code read_code (take_from a s.idle s).0
          (take_from a s.idle s).1 (take_from-Holding a s.idle s refl h))

close_found-IsSound :
    (id : ℕ) (found : Option Session) (s : TcpServer)
    → find id s.session_map ≡ found
    → IsSound s
    → IsSound (close_found id found s).0
unfolding close_found IsSound Holding
close_found-IsSound id none s e h = h
close_found-IsSound id (some v) s e (h, m, l) = recycle-IsSound v.ctx (erase id s.session_map) s (
  λ x. omega (arith, h x, in_map-erase x id v s.session_map e),
  erase-IsMap 1 (suc s.last_id) id s.session_map m,
  l,
)

pub session_handle_close-IsSound :
    (id : ℕ) (s : TcpServer) → IsSound s → IsSound (session_handle_close id s).0
unfolding session_handle_close
session_handle_close-IsSound id s h = close_found-IsSound id (find id s.session_map) s refl h

take_from-pool :
    (a : Allocator) (idle : List SessionCtx) (s : TcpServer)
    → (take_from a idle s).1.writeparams ≡ s.writeparams
unfolding take_from
take_from-pool a [] s = refl
take_from-pool a (ctx ∷ idle) s = refl

accept_on-pool :
    (a : Allocator) (init_code accept_code read_code : ℤ) (ctx : SessionCtx) (s : TcpServer)
    → (accept_on a init_code accept_code read_code ctx s).0.writeparams ≡ s.writeparams
unfolding accept_on recycle open_session
accept_on-pool a init_code accept_code read_code ctx s = ground arith

-- The pool of requests is not touched by a connection, nor by the end of a session.
pub accept-pool :
    (a : Allocator) (status init_code accept_code read_code : ℤ) (s : TcpServer)
    → (accept_connection a status init_code accept_code read_code s).0.writeparams ≡ s.writeparams
unfolding accept_connection
accept-pool a status init_code accept_code read_code s =
    let (ctx, s1) = take_from a s.idle s in
    ground
      (arith, accept_on-pool a init_code accept_code read_code ctx s1, take_from-pool a s.idle s)

close_found-pool :
    (id : ℕ) (found : Option Session) (s : TcpServer)
    → (close_found id found s).0.writeparams ≡ s.writeparams
unfolding close_found recycle
close_found-pool id none s = refl
close_found-pool id (some v) s = ground arith

pub session_handle_close-pool :
    (id : ℕ) (s : TcpServer) → (session_handle_close id s).0.writeparams ≡ s.writeparams
unfolding session_handle_close
session_handle_close-pool id s = close_found-pool id (find id s.session_map) s

in_freed-append : (x : ℕ) (xs ys : List ℕ) → in_freed x (xs ++ ys) ≡ in_freed x xs + in_freed x ys
unfolding in_freed
in_freed-append x [] ys = omega arith
in_freed-append x (y ∷ xs) ys = omega (arith, in_freed-append x xs ys)

in_freed-addresses : (x : ℕ) (ctxs : List SessionCtx) → in_freed x (addresses ctxs) ≡ in_idle x ctxs
unfolding in_freed in_idle addresses
in_freed-addresses x [] = refl
in_freed-addresses x (ctx ∷ ctxs) = omega (arith, in_freed-addresses x ctxs)

-- The destructor frees what is idle, and nothing else.
pub in_freed-destroy :
    (x : ℕ) (s : TcpServer) → in_freed x (destroy s).0.freed ≡ in_idle x s.idle + in_freed x s.freed
unfolding destroy
in_freed-destroy x s =
    omega (arith, in_freed-append x (addresses s.idle) s.freed, in_freed-addresses x s.idle)
