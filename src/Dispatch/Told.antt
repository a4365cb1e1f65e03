-- ===== src/Dispatch/Told.antt =====
-- What the user of a `CTcpServer` is told of its sessions, in every order of connections, closes,
-- bytes and writes.
pub mod Silent
pub mod Keys
pub mod Pairs
mod Tests
use test_libuv.Common.{
  ℕ, suc, ◌+◌, ◌≤◌, ◌<◌, ◌^◌, ◌≡◌, ◌∙◌, refl, sym, ap, subst, some_eq, Bool, true, false, Option,
  none, some, List, [], ◌∷◌, ◌++◌, map, arith, hit, ltb, ℤ, pos, negsuc, zero, length,
  if◌then◌else◌, if_elim, Option-cases, inl, inr, append-nil,
}
use test_libuv.PacketSync.{Allocator, Outcome, done, fault, unfinished, on_recv_data}
use test_libuv.PacketSync.Receiver.{Outcome-cases}
use test_libuv.TcpServer.{
  SessionCtx, Session, WriteParam, TcpServer, ErrMsg, Effect, calls_new_conn, calls_close,
  calls_recv, find, insert, recycle, close_found, session_handle_close,
}
use test_libuv.TcpServer.Accept.{accept_connection}
use test_libuv.TcpServer.Reuse.{Answers, Accepted, Refused, accept_lem}
use test_libuv.TcpServer.Maps.{IsMap, IsMap-bounds}
use test_libuv.TcpServer.Ownership.{IsSound}
use test_libuv.TcpServer.Sending.{sendinl, broadcastinl, after_send}
use test_libuv.TcpServer.Writes.{IsValid, with_pool, sendinl_lem}
use test_libuv.TcpServer.Broadcast.{Reaches, broadcastinl-Reaches}
use test_libuv.TcpSession.{
  closeinl, after_recv, after_recv_data, close, push_plain, update, on_session, after_client_close,
}
use test_libuv.TcpSession.Steps
use test_libuv.TcpSession.Steps.{IsIntact, Reach-IsIntact, after_client_close-IsIntact}
use test_libuv.TcpSession.Settings.{Same, accept-Same, after_client_close-Same, Step-Same}
use test_libuv.Dispatch.Shutdown.{in_keys, in_keys-update, Closed, close_found_lem}

-- How often the user is told that a session has come, and that it is closed.
abbrev pub opened : ℕ → List Effect → ℕ
opened x [] = 0
opened x (calls_new_conn id ∷ es) = hit x id + opened x es
opened x (e ∷ es) = opened x es

abbrev pub ended : ℕ → List Effect → ℕ
ended x [] = 0
ended x (calls_close id ∷ es) = hit x id + ended x es
ended x (e ∷ es) = ended x es

-- A server, and all that its steps have done. A connection comes only while the `int` of
-- `CreateSessionId` has room for one more id.
pub data Reach (a : Allocator) (s : TcpServer) : TcpServer → List Effect → Type 0 where
  here : Reach a s s []
  accepts :
      {t : TcpServer} {es : List Effect} (status init_code accept_code read_code : ℤ)
      → suc t.last_id < 2 ^ 31
      → Reach a s t es
      → Reach a s
          (accept_connection a status init_code accept_code read_code t).0
          (es ++ (accept_connection a status init_code accept_code read_code t).1)
  closed :
      {t : TcpServer} {es : List Effect} (id : ℕ)
      → Reach a s t es
      → Reach a s (after_client_close id t).0 (es ++ (after_client_close id t).1)
  closes :
      {t : TcpServer} {es : List Effect} (id : ℕ) (v : Session)
      → find id t.session_map ≡ some v
      → Reach a s t es
      → Reach a s (on_session id (λ w. (closeinl w).0) t) (es ++ (closeinl v).1)
  receives :
      {t : TcpServer} {es : List Effect} (fuel id : ℕ) (buf : List ℕ) (nread : ℤ) (v v' : Session)
      (more : List Effect)
      → find id t.session_map ≡ some v
      → after_recv a fuel t.has_recv_cb buf nread v ≡ done (v', more)
      → Reach a s t es
      → Reach a s
          (on_session id (λ w. record w { ctx = record w.ctx { packet = v'.ctx.packet } }) t)
          (es ++ more)
  sends :
      {t t' : TcpServer} {es : List Effect} (code : ℤ) (buff : List ℕ) (size : ℕ) (v : Session)
      (ok : Bool) (more : List Effect)
      → size ≤ length buff
      → sendinl a code buff size v.ctx t ≡ some (ok, t', more)
      → Reach a s t es
      → Reach a s t' (es ++ more)
  broadcasts :
      {t t' : TcpServer} {es : List Effect} (code : ℕ → ℤ) (buff : List ℕ) (size : ℕ)
      (excluded : List ℕ) (more : List Effect)
      → size ≤ length buff
      → broadcastinl a code buff size excluded t ≡ some (t', more)
      → Reach a s t es
      → Reach a s t' (es ++ more)
  gives_back :
      {t : TcpServer} {es : List Effect} (p : WriteParam)
      → IsValid p
      → Reach a s t es
      → Reach a s (after_send p t) es
