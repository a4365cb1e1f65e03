-- ===== src/Dispatch/Shutdown.antt =====
-- The end of a loop, from the walk over the server's handles to the last close callback.
use test_libuv.Common.{
  hit, count, ℕ, suc, ◌+◌, ◌≡◌, ◌∙◌, refl, sym, ap, Bool, true, false, some, List, [], ◌∷◌, ◌++◌,
  if◌then◌else◌, arith, map, subst, ℕ_discrete,
}
use test_libuv.TcpServer.{
  HandleState, raw, active, closing, Session, TcpServer, Effect, calls_close, closes_handle, find,
  erase, recycle, close_found, session_handle_close,
}
use test_libuv.TcpServer.Maps.{IsMap, in_map, in_idle}
use test_libuv.TcpServer.Ownership.{IsSound, in_freed, allocated, in_freed-destroy}
use test_libuv.TcpServer
use test_libuv.TcpSession.{update, on_session, on_handle_close, after_client_close, is_closing}
use test_libuv.TcpSession.Steps.{IsIntact, after_client_close-IsIntact}
use test_libuv.Dispatch.{walk_sessions, walk, any_active, walk_all, close_callbacks}

-- How often a number stands in the keys of a map.
unfoldable pub in_keys : ℕ → List (ℕ × Session) → ℕ
in_keys x [] = 0
in_keys x ((k, v) ∷ m) = hit x k + in_keys x m

-- The handles that are not closing yet.
unfoldable pub open_handles : List (ℕ × Session) → List ℕ
open_handles [] = []
open_handles ((k, v) ∷ m) =
    let rest = open_handles m in if is_closing v.ctx.handle then rest else v.ctx.address ∷ rest

walk_sessions_lem :
    (m : List (ℕ × Session)) → (walk_sessions m).1 ≡ map closes_handle (open_handles m)
unfolding walk_sessions open_handles on_handle_close
walk_sessions_lem [] = refl
walk_sessions_lem ((k, v) ∷ m) = ground (arith, walk_sessions_lem m)

walk_sessions-again : (m : List (ℕ × Session)) → (walk_sessions (walk_sessions m).0).1 ≡ []
unfolding walk_sessions on_handle_close
walk_sessions-again [] = refl
walk_sessions-again ((k, v) ∷ m) = ground (arith, walk_sessions-again m)

walk_sessions-IsMap :
    (lo hi : ℕ) (m : List (ℕ × Session)) → IsMap lo hi m → IsMap lo hi (walk_sessions m).0
unfolding walk_sessions on_handle_close IsMap
walk_sessions-IsMap lo hi [] h = h
walk_sessions-IsMap lo hi ((k, v) ∷ m) (h, i, r) =
    (h, ground (arith, i), walk_sessions-IsMap (suc k) hi m r)

in_map-walk_sessions : (x : ℕ) (m : List (ℕ × Session)) → in_map x (walk_sessions m).0 ≡ in_map x m
unfolding walk_sessions on_handle_close in_map
in_map-walk_sessions x [] = refl
in_map-walk_sessions x ((k, v) ∷ m) = ground (arith, in_map-walk_sessions x m)

in_keys-walk_sessions :
    (x : ℕ) (m : List (ℕ × Session)) → in_keys x (walk_sessions m).0 ≡ in_keys x m
unfolding walk_sessions in_keys
in_keys-walk_sessions x [] = refl
in_keys-walk_sessions x ((k, v) ∷ m) = omega (arith, in_keys-walk_sessions x m)

walk-IsIntact : (c : Bool) (s : TcpServer) → IsIntact s → IsIntact (walk c s).0
unfolding walk IsSound
walk-IsIntact c s ((h, m, l), p) = (
  (
    λ x. omega (arith, h x, in_map-walk_sessions x s.session_map),
    walk_sessions-IsMap 1 (suc s.last_id) s.session_map m,
    l,
  ),
  p,
)

pub in_keys-update :
    (x k : ℕ) (f : Session → Session) (m : List (ℕ × Session))
    → in_keys x (update k f m) ≡ in_keys x m
unfolding update in_keys
in_keys-update x k f [] = refl
in_keys-update x k f ((j, v) ∷ m) = ground (arith, in_keys-update x k f m)

in_keys-erase :
    (x k : ℕ) (v : Session) (m : List (ℕ × Session))
    → find k m ≡ some v
    → in_keys x m ≡ hit x k + in_keys x (erase k m)
unfolding find erase in_keys
in_keys-erase x k v [] h = ground arith
in_keys-erase x k v ((j, w) ∷ m) h = ground (arith, in_keys-erase x k v m)

-- A key that is there is found.
find_lem :
    (k n : ℕ) (m : List (ℕ × Session)) → in_keys k m ≡ suc n → (v : Session) × (find k m ≡ some v)
unfolding find in_keys
find_lem k n [] h = absurd (omega (arith, h))
find_lem k n ((j, w) ∷ m) h = elim (ℕ_discrete k j) [
  | yes e ↦ (w, ground arith)
  | no d ↦ let (v, f) = find_lem k n m (ground arith) in (v, ground arith)
]

-- What `AfterClientClose` leaves of the map, and what it tells the user.
pub record Closed (id : ℕ) (s : TcpServer) (r : TcpServer × List Effect) : Type 0 where
  pub keys : (x : ℕ) → in_keys x s.session_map ≡ hit x id + in_keys x r.0.session_map
  pub same_cb : r.0.has_close_cb ≡ s.has_close_cb
  pub told : r.1 ≡ (if s.has_close_cb then calls_close id ∷ [] else [])

pub close_found_lem :
    (id : ℕ) (v : Session) (s : TcpServer)
    → find id s.session_map ≡ some v
    → Closed id s (close_found id (some v) s)
unfolding close_found recycle
close_found_lem id v s e = record {
  keys = λ x. in_keys-erase x id v s.session_map e;
  same_cb = ground arith;
  told = refl;
}

after_client_close_lem :
    (id n : ℕ) (s : TcpServer)
    → in_keys id s.session_map ≡ suc n
    → Closed id s (after_client_close id s)
unfolding after_client_close session_handle_close
after_client_close_lem id n s h =
    let mark : Session → Session = λ v. record v { is_closed = true } in
    let s' = on_session id mark s in
    let (v, e) = find_lem id n s'.session_map (in_keys-update id id mark s.session_map ∙ h) in
    let c = subst (λ o. Closed id s' (close_found id o s')) (sym e) (close_found_lem id v s' e) in
    record {
      keys = λ x. sym (in_keys-update x id mark s.session_map) ∙ c.keys x;
      same_cb = c.same_cb;
      told = c.told;
    }

no_keys : (m : List (ℕ × Session)) → ((x : ℕ) → in_keys x m ≡ 0) → m ≡ []
unfolding in_keys
no_keys [] h = refl
no_keys ((k, v) ∷ m) h = absurd (ground (arith, h k))

-- What the user is told of the sessions.
abbrev pub told_of : Bool → List ℕ → List Effect
told_of has_close_cb ids = if has_close_cb then map calls_close ids else []

close_callbacks_lem :
    (ids : List ℕ) (s : TcpServer)
    → ((x : ℕ) → count x ids ≡ in_keys x s.session_map)
    → ((close_callbacks ids s).0.session_map ≡ [])
      × ((close_callbacks ids s).1 ≡ told_of s.has_close_cb ids)
unfolding close_callbacks count
close_callbacks_lem [] s h = (no_keys s.session_map (λ x. sym (h x)), ground arith)
close_callbacks_lem (id ∷ ids) s h =
    let r = after_client_close id s in
    let c = after_client_close_lem id (count id ids) s (ground (arith, h id)) in
    let (empty, es) = close_callbacks_lem ids r.0 (λ x. omega (arith, h x, c.keys x)) in
    (empty, ground (arith, es, c.told, c.same_cb))

close_callbacks-IsIntact :
    (ids : List ℕ) (s : TcpServer) → IsIntact s → IsIntact (close_callbacks ids s).0
unfolding close_callbacks
close_callbacks-IsIntact [] s h = h
close_callbacks-IsIntact (id ∷ ids) s h =
    close_callbacks-IsIntact ids (after_client_close id s).0 (after_client_close-IsIntact id s h)

only_places :
    (s : TcpServer)
    → IsIntact s
    → s.session_map ≡ []
    → (x : ℕ) → in_idle x s.idle + in_freed x s.freed ≡ allocated x s
unfolding IsSound in_map
only_places s (h, p) e x = omega (arith, h.0 x, ap (in_map x) e)

-- The walk leaves the idle contexts alone.
walk_all_lem :
    (c : Bool) (s : TcpServer) → any_active s.idle ≡ false → walk_all c s ≡ some (walk c s)
unfolding walk_all
walk_all_lem c s none_in_use = rw (none_in_use) refl

-- The end of a loop on a server between two callbacks, of which no context that waits for a client
-- has a handle in use, or one whose close libuv has not finished: the walk over all its handles has
-- no fault and gives each handle of a session that is not closing to `uv_close` once, behind the
-- listening one, and a second walk gives none; and when libuv has called the callbacks of the
-- sessions, each once in whatever order, the map is empty, the user was told of each closed session
-- once in that order, if there is a callback, and every context that was allocated is idle or
-- freed, in one place. The destructor then leaves each of them freed, exactly once.
pub walk-close_callbacks :
    (c : Bool) (ids : List ℕ) (s : TcpServer)
    → IsIntact s
    → any_active s.idle ≡ false
    → ((x : ℕ) → count x ids ≡ in_keys x s.session_map)
    → let (s1, es) = walk c s in
      let (s2, more) = close_callbacks ids s1 in
      (walk_all c s ≡ some (s1, es))
      × (es ≡ TcpServer.on_handle_close c ++ map closes_handle (open_handles s.session_map))
      × ((again : TcpServer) × (walk_all true s1 ≡ some (again, [])))
      × (s2.session_map ≡ [])
      × (more ≡ told_of s.has_close_cb ids)
      × ((x : ℕ) → in_idle x s2.idle + in_freed x s2.freed ≡ allocated x s2)
      × ((x : ℕ) → in_freed x (TcpServer.destroy s2).0.freed ≡ allocated x s2)
unfolding walk TcpServer.on_handle_close
walk-close_callbacks c ids s h none_in_use once =
    let s1 = (walk c s).0 in
    let (empty, told) =
      close_callbacks_lem ids s1 (λ x. once x ∙ sym (in_keys-walk_sessions x s.session_map)) in
    let places =
      only_places (close_callbacks ids s1).0 (close_callbacks-IsIntact ids s1 (walk-IsIntact c s h))
        empty in
    (
      walk_all_lem c s none_in_use,
      ap (λ es. TcpServer.on_handle_close c ++ es) (walk_sessions_lem s.session_map),
      (
        (walk true s1).0,
        walk_all_lem true s1 none_in_use
            ∙ ap (λ es. some ((walk true s1).0, es)) (walk_sessions-again s.session_map),
      ),
      empty,
      told,
      places,
      λ x. in_freed-destroy x (close_callbacks ids s1).0 ∙ places x,
    )
