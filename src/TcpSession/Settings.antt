-- ===== src/TcpSession/Settings.antt =====
-- `CTcpServer`: what stays as it was set, in every order of steps.
use test_libuv.Common.{
  if_elim, subst, not, is_zero, some_eq, ℕ, ◌≡◌, refl, ap, sym, ◌∙◌, true, Option, none, some, List,
  [], ◌∷◌, arith, ℤ,
}
use test_libuv.PacketSync.{Allocator}
use test_libuv.TcpServer.{
  Effect, TcpServer, find, SessionCtx, Session, recycle, close_found, session_handle_close,
}
use test_libuv.TcpServer.Accept.{accept_connection, accept_on, take_from, open_session}
use test_libuv.TcpServer.Ownership.{IsSound}
use test_libuv.TcpServer.Writes.{sendinl_lem}
use test_libuv.TcpServer.Broadcast.{broadcastinl-Reaches}
use test_libuv.TcpServer.Sending.{after_send}
use test_libuv.TcpSession.{on_session, after_client_close}
use test_libuv.TcpSession.Steps.{
  Step, accepts, closes, closed, receives, sends, broadcasts, gives_back, Reach, here, next,
  IsIntact, Reach-IsIntact,
}

-- What no step changes of a server: its loop and the callbacks of its user.
abbrev pub Same : TcpServer → TcpServer → Type 0
Same s s' =
    (s'.looper ≡ s.looper)
    × (s'.has_new_conn_cb ≡ s.has_new_conn_cb)
    × (s'.has_close_cb ≡ s.has_close_cb)

Same-trans : (s t u : TcpServer) → Same s t → Same t u → Same s u
Same-trans s t u (l, n, c) (l', n', c') = (l' ∙ l, n' ∙ n, c' ∙ c)

close_found-Same : (id : ℕ) (o : Option Session) (s : TcpServer) → Same s (close_found id o s).0
unfolding close_found recycle
close_found-Same id none s = (refl, refl, refl)
close_found-Same id (some v) s = (ground arith, ground arith, ground arith)

accept_on-Same :
    (a : Allocator) (i c r : ℤ) (ctx : SessionCtx) (s : TcpServer)
    → Same s (accept_on a i c r ctx s).0
unfolding accept_on open_session recycle
accept_on-Same a i c r ctx s = (ground arith, ground arith, ground arith)

take_from-Same :
    (a : Allocator) (idle : List SessionCtx) (s : TcpServer) → Same s (take_from a idle s).1
unfolding take_from
take_from-Same a [] s = (refl, refl, refl)
take_from-Same a (ctx ∷ idle) s = (refl, refl, refl)

pub accept-Same :
    (a : Allocator) (status i c r : ℤ) (s : TcpServer)
    → Same s (accept_connection a status i c r s).0
unfolding accept_connection
accept-Same a status i c r s =
    let (ctx, s1) = take_from a s.idle s in
    let same =
      Same-trans s s1 (accept_on a i c r ctx s1).0 (take_from-Same a s.idle s)
        (accept_on-Same a i c r ctx s1) in
    if_elim (λ (x : TcpServer × List Effect). Same s x.0) (not (is_zero status))
      (λ t. (refl, refl, refl)) (λ t. same)

pub after_client_close-Same : (id : ℕ) (s : TcpServer) → Same s (after_client_close id s).0
unfolding after_client_close session_handle_close
after_client_close-Same id s =
    let s1 = on_session id (λ v. record v { is_closed = true }) s in
    close_found-Same id (find id s1.session_map) s1

pub Step-Same : (a : Allocator) {s s' : TcpServer} → Step a s s' → IsIntact s → Same s s'
unfolding after_send IsSound
Step-Same a (accepts {s = s} status i c r) h = accept-Same a status i c r s
Step-Same a (closes {s = s} id) h = (refl, refl, refl)
Step-Same a (closed {s = s} id) h = after_client_close-Same id s
Step-Same a (receives fuel id buf nread v v' es e r) h = (refl, refl, refl)
Step-Same a (sends {s = s} code buff size v ok es l e) (h, p) =
    let (q, ps, err, sent, c, pool) = sendinl_lem a code buff size v.ctx s p l in
    subst (Same s) (ap (λ r. r.1) (some_eq (sym sent ∙ e))) (refl, refl, refl)
Step-Same a (broadcasts {s = s} code buff size excluded es l e) (h, p) =
    let (ps, err, fs, sent, reached, pool) =
      broadcastinl-Reaches a code buff size excluded s h.1 p l in
    subst (Same s) (ap (λ r. r.0) (some_eq (sym sent ∙ e))) (refl, refl, refl)
Step-Same a (gives_back {s = s} p v) h = (ground arith, ground arith, ground arith)

pub Reach-Same : (a : Allocator) {s s' : TcpServer} → Reach a s s' → IsIntact s → Same s s'
Reach-Same a here h = (refl, refl, refl)
Reach-Same a {s} (next {s1 = s1} {s2 = s2} r step) h =
    Same-trans s s1 s2 (Reach-Same a r h) (Step-Same a step (Reach-IsIntact a r h))
