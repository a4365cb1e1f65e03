-- ===== src/Dispatch/Unclosed.antt =====
-- A handle in use in a context that waits for a client: uv/TcpServer.cpp leaves one there when
-- `uv_accept` fails, and the walk of uv/Looper.cpp over the handles of the loop comes to it.
use test_libuv.Common.{
  ℕ, ◌≡◌, refl, ◌∙◌, Bool, true, false, ◌||◌, Option, none, some, List, [], ◌∷◌, ◌++◌, arith, ℤ,
  pos, is_zero,
}
use test_libuv.PacketSync.{Allocator}
use test_libuv.TcpServer.{
  active, SessionCtx, TcpServer, Effect, recycle, close_found, session_handle_close,
}
use test_libuv.TcpServer.Accept.{accept_connection, accept_on, take_from}
use test_libuv.TcpSession.{after_client_close}
use test_libuv.Dispatch.{any_active, walk_all, close_callbacks}

any_active-append :
    (xs ys : List SessionCtx) → any_active (xs ++ ys) ≡ any_active xs || any_active ys
unfolding any_active
any_active-append [] ys = refl
any_active-append (x ∷ xs) ys = ground (arith, any_active-append xs ys)

close_found-any_active :
    (id : ℕ) (o : Option _) (s : TcpServer)
    → any_active s.idle ≡ true
    → any_active (close_found id o s).0.idle ≡ true
unfolding close_found recycle
close_found-any_active id none s h = h
close_found-any_active id (some v) s h = ground (arith, any_active-append s.idle (v.ctx ∷ []))

close_callbacks-any_active :
    (ids : List ℕ) (s : TcpServer)
    → any_active s.idle ≡ true
    → any_active (close_callbacks ids s).0.idle ≡ true
unfolding close_callbacks after_client_close session_handle_close
close_callbacks-any_active [] s h = h
close_callbacks-any_active (id ∷ ids) s h =
    close_callbacks-any_active ids (after_client_close id s).0 (close_found-any_active id _ _ h)

-- The sessions are those of `s`, nothing was called, and a handle in use waits.
Leaves : TcpServer → TcpServer × List Effect → Type 0
Leaves s (s', es) = (s'.session_map ≡ s.session_map) × (es ≡ []) × (any_active s'.idle ≡ true)

accept_on-Leaves :
    (a : Allocator) (accept_code read_code : ℤ) (ctx : SessionCtx) (s : TcpServer)
    → is_zero accept_code ≡ false
    → Leaves s (accept_on a (pos 0) accept_code read_code ctx s)
unfolding accept_on Leaves any_active
accept_on-Leaves a accept_code read_code ctx s h =
    let waits = any_active-append s.idle (record ctx { handle = active } ∷ []) in
    rw (h) (refl, refl, waits ∙ last (any_active s.idle))
  where
    last : (b : Bool) → b || true ≡ true
    last b = ground arith

take_from-Leaves :
    (a : Allocator) (accept_code read_code : ℤ) (idle : List SessionCtx) (s : TcpServer)
    → is_zero accept_code ≡ false
    → let (ctx, s1) = take_from a idle s in
      Leaves s (accept_on a (pos 0) accept_code read_code ctx s1)
unfolding take_from Leaves
take_from-Leaves a accept_code read_code [] s h = accept_on-Leaves a accept_code read_code _ _ h
take_from-Leaves a accept_code read_code (ctx ∷ idle) s h =
    accept_on-Leaves a accept_code read_code _ _ h

-- The bug: a connection that `uv_accept` refuses leaves the sessions as they are and calls nothing,
-- so its handle stays in use; and whichever sessions are closed then, the walk over all handles of
-- the loop comes to that handle, behind which no object stands.
pub refused_accept_dangles :
    (a : Allocator) (accept_code read_code : ℤ) (ids : List ℕ) (closing : Bool) (s : TcpServer)
    → is_zero accept_code ≡ false
    → let (s', es) = accept_connection a (pos 0) (pos 0) accept_code read_code s in
      (s'.session_map ≡ s.session_map)
      × (es ≡ [])
      × (walk_all closing (close_callbacks ids s').0 ≡ none)
unfolding walk_all accept_connection Leaves
refused_accept_dangles a accept_code read_code ids closing s h =
    let (same, quiet, waits) = take_from-Leaves a accept_code read_code s.idle s h in
    (
      same,
      quiet,
      rw
          (close_callbacks-any_active ids
            (accept_connection a (pos 0) (pos 0) accept_code read_code s).0 waits)
          refl,
    )
