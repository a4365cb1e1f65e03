-- ===== src/Dispatch/Dangling.antt =====
-- A `Close` of a session that comes between the `uv_close` of its handle and the callback of that:
-- its event is still in the queue of the loop when the session is deleted.
use test_libuv.Common.{
  ℕ, ◌≤◌, ◌≡◌, ◌∙◌, refl, sym, ap, subst, true, false, none, some, List, [], ◌∷◌, arith, ℤ,
  ℕ_discrete,
}
use test_libuv.Event.{UvEvent, UvEventType, plain_event}
use test_libuv.PacketSync.{Allocator}
use test_libuv.TcpServer.{
  Session, TcpServer, pushes, find, erase, recycle, close_found, session_handle_close,
}
use test_libuv.TcpServer.Maps.{IsMap, find-erase, find-bounds}
use test_libuv.TcpSession.{update, on_session, close, closeinl, after_client_close, push_plain}
use test_libuv.TcpSession
use test_libuv.TcpSession.Steps.{Keeps, update-IsMap, closeinl-Keeps}
use test_libuv.Dispatch.{dispatch}

find-update :
    (k : ℕ) (f : Session → Session) (v : Session) (m : List (ℕ × Session))
    → find k m ≡ some v
    → find k (update k f m) ≡ some (f v)
unfolding find update
find-update k f v [] e = ground arith
find-update k f v ((j, w) ∷ m) e = elim (ℕ_discrete k j) [
  | yes d ↦ ground arith
  | no d ↦ ground (arith, find-update k f v m (ground arith))
]

update_found :
    (k : ℕ) (f : Session → Session) (v : Session) (m : List (ℕ × Session))
    → find k m ≡ some v
    → update k (λ w. f v) m ≡ update k f m
unfolding find update
update_found k f v [] e = refl
update_found k f v ((j, w) ∷ m) e = elim (ℕ_discrete k j) [
  | yes d ↦ ground arith
  | no d ↦ ground (arith, update_found k f v m (ground arith))
]

erased :
    (id : ℕ) (v : Session) (s : TcpServer)
    → (close_found id (some v) s).0.session_map ≡ erase id s.session_map
unfolding close_found recycle
erased id v s = ground arith

-- After its callback, the session is not in the map.
pub after_client_close_gone :
    (lo hi id : ℕ) (v : Session) (s : TcpServer)
    → IsMap lo hi s.session_map
    → find id s.session_map ≡ some v
    → find id (after_client_close id s).0.session_map ≡ none
unfolding after_client_close session_handle_close Keeps
after_client_close_gone lo hi id v s m e =
    let mark : Session → Session = λ w. record w { is_closed = true } in
    let s' = on_session id mark s in
    subst (λ o. find id (close_found id o s').0.session_map ≡ none)
      (sym (find-update id mark v s.session_map e))
      (ap (find id) (erased id (mark v) s')
        ∙ find-erase lo hi id s'.session_map
            (update-IsMap lo hi id mark s.session_map (λ w. (refl, refl)) m))

dispatch_found :
    (a : Allocator) (code : ℕ → ℤ) (e : UvEvent) (v : Session) (s : TcpServer)
    → 1 ≤ e.target
    → find e.target s.session_map ≡ some v
    → dispatch a code e s
      ≡ some (on_session e.target (λ w. (TcpSession.do_event e v).0) s, (TcpSession.do_event e v).1)
unfolding dispatch
dispatch_found a code e v s l f = ground arith

dispatch_gone :
    (a : Allocator) (code : ℕ → ℤ) (e : UvEvent) (s : TcpServer)
    → 1 ≤ e.target
    → find e.target s.session_map ≡ none
    → dispatch a code e s ≡ none
unfolding dispatch
dispatch_gone a code e s l f = ground arith

-- A session that was found and is not closed, on a server with a loop and keys from 1 on: its event
-- of `Close` is handled by `closeinl`; until the callback of the handle, `Close` still pushes the
-- same event again; and once the callback has come, the handling of that event calls an object that
-- is deleted.
pub close_again_dangles :
    (a : Allocator) (code : ℕ → ℤ) (hi id : ℕ) (v : Session) (s : TcpServer)
    → IsMap 1 hi s.session_map
    → find id s.session_map ≡ some v
    → v.is_closed ≡ false
    → v.looper ≡ true
    → let e = plain_event UvEventType.close id in
      let s1 = on_session id (λ w. (closeinl w).0) s in
      (dispatch a code e s ≡ some (s1, (closeinl v).1))
      × (find id s1.session_map ≡ some (closeinl v).0)
      × (close (closeinl v).0 ≡ pushes e ∷ [])
      × (dispatch a code e (after_client_close id s1).0 ≡ none)
unfolding TcpSession.do_event closeinl close push_plain Keeps
close_again_dangles a code hi id v s m f live on =
    let e = plain_event UvEventType.close id in
    let f1 : Session → Session = λ w. (closeinl w).0 in
    let (l, same) = find-bounds 1 hi id v s.session_map m f in
    let s1 = on_session id f1 s in
    let there = find-update id f1 v s.session_map f in
    (
      dispatch_found a code e v s l f
          ∙ ap (λ n. some (record s { session_map = n }, (closeinl v).1))
              (update_found id f1 v s.session_map f),
      there,
      ground (arith, same, live, on),
      dispatch_gone a code e (after_client_close id s1).0 l (
          after_client_close_gone 1 hi id (f1 v) s1
            (update-IsMap 1 hi id f1 s.session_map closeinl-Keeps m) there),
    )
