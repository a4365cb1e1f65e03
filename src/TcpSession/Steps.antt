-- ===== src/TcpSession/Steps.antt =====
-- `CTcpServer` and its sessions in every order of connections, closes, bytes and writes.
use test_libuv.Common.{
  some_eq, ℕ, suc, ◌≤◌, ◌≡◌, ◌∙◌, refl, Bool, true, some, List, [], ◌∷◌, arith, ℤ, length, subst,
  sym, ap, if_elim, ltb,
}
use test_libuv.PacketSync.{Allocator, done}
use test_libuv.TcpServer.{Session, WriteParam, TcpServer, Effect, ErrMsg, find}
use test_libuv.TcpServer.Accept.{accept_connection}
use test_libuv.TcpServer.Maps.{IsMap, in_map}
use test_libuv.TcpServer.Ownership.{
  IsSound, accept-IsSound, session_handle_close-IsSound, accept-pool, session_handle_close-pool,
}
use test_libuv.TcpServer.Sending.{sendinl, broadcastinl, after_send}
use test_libuv.TcpServer.Writes.{IsPool, IsValid, with_pool, sendinl_lem, after_send-IsPool}
use test_libuv.TcpServer.Broadcast.{broadcastinl-Reaches}
use test_libuv.TcpSession.{closeinl, after_recv, update, on_session, after_client_close}

-- One callback of libuv, event or call of `Send`. What libuv gives back is a request that holds
-- its length.
pub data Step (a : Allocator) : TcpServer → TcpServer → Type 0 where
  accepts :
      {s : TcpServer} (status init_code accept_code read_code : ℤ)
      → Step a s (accept_connection a status init_code accept_code read_code s).0
  closes : {s : TcpServer} (id : ℕ) → Step a s (on_session id (λ v. (closeinl v).0) s)
  closed : {s : TcpServer} (id : ℕ) → Step a s (after_client_close id s).0
  receives :
      {s : TcpServer} (fuel id : ℕ) (buf : List ℕ) (nread : ℤ) (v v' : Session) (es : List Effect)
      → find id s.session_map ≡ some v
      → after_recv a fuel s.has_recv_cb buf nread v ≡ done (v', es)
      → Step a s (on_session id (λ w. record w { ctx = record w.ctx { packet = v'.ctx.packet } }) s)
  sends :
      {s s' : TcpServer} (code : ℤ) (buff : List ℕ) (size : ℕ) (v : Session) (ok : Bool)
      (es : List Effect)
      → size ≤ length buff
      → sendinl a code buff size v.ctx s ≡ some (ok, s', es)
      → Step a s s'
  broadcasts :
      {s s' : TcpServer} (code : ℕ → ℤ) (buff : List ℕ) (size : ℕ) (excluded : List ℕ)
      (es : List Effect)
      → size ≤ length buff
      → broadcastinl a code buff size excluded s ≡ some (s', es)
      → Step a s s'
  gives_back : {s : TcpServer} (p : WriteParam) → IsValid p → Step a s (after_send p s)

pub data Reach (a : Allocator) : TcpServer → TcpServer → Type 0 where
  here : {s : TcpServer} → Reach a s s
  next : {s s1 s2 : TcpServer} → Reach a s s1 → Step a s1 s2 → Reach a s s2

-- A change of a session that keeps its context's address and id.
unfoldable pub Keeps : (Session → Session) → Type 0
Keeps f =
    (v : Session) → ((f v).ctx.address ≡ v.ctx.address) × ((f v).ctx.client_id ≡ v.ctx.client_id)

pub update-IsMap :
    (lo hi id : ℕ) (f : Session → Session) (m : List (ℕ × Session))
    → Keeps f
    → IsMap lo hi m
    → IsMap lo hi (update id f m)
unfolding IsMap update Keeps
update-IsMap lo hi id f [] k h = h
update-IsMap lo hi id f ((j, v) ∷ m) k (h, i, r) =
    ground (arith, k v, update-IsMap (suc j) hi id f m k r)

pub in_map-update :
    (x id : ℕ) (f : Session → Session) (m : List (ℕ × Session))
    → Keeps f
    → in_map x (update id f m) ≡ in_map x m
unfolding in_map update Keeps
in_map-update x id f [] k = refl
in_map-update x id f ((j, v) ∷ m) k = ground (arith, k v, in_map-update x id f m k)

-- What holds of the server between any two callbacks.
abbrev pub IsIntact : TcpServer → Type 0
IsIntact s = IsSound s × IsPool s.writeparams

pub on_session-IsIntact :
    (id : ℕ) (f : Session → Session) (s : TcpServer)
    → Keeps f
    → IsIntact s
    → IsIntact (on_session id f s)
unfolding IsSound
on_session-IsIntact id f s k ((h, m, l), p) = (
  (
    λ x. omega (arith, h x, in_map-update x id f s.session_map k),
    update-IsMap 1 (suc s.last_id) id f s.session_map k m,
    l,
  ),
  p,
)

with_pool-IsSound :
    (ps : List WriteParam) (e : ErrMsg) (s : TcpServer) → IsSound s → IsSound (with_pool ps e s)
unfolding IsSound
with_pool-IsSound ps e s h = h

-- A server like `s` but for its pool, as the result of a call, is safe.
pub result-IsIntact :
    (ps : List WriteParam) (e : ErrMsg) (s s' : TcpServer)
    → with_pool ps e s ≡ s'
    → IsSound s
    → IsPool ps
    → IsIntact s'
result-IsIntact ps e s s' q h p = subst IsIntact q (with_pool-IsSound ps e s h, p)

pub closeinl-Keeps : Keeps (λ v. (closeinl v).0)
unfolding Keeps closeinl
closeinl-Keeps v = (ground arith, ground arith)

after_send-IsSound : (p : WriteParam) (s : TcpServer) → IsSound s → IsSound (after_send p s)
unfolding after_send IsSound
after_send-IsSound p s h = if_elim IsSound (ltb 20 (length s.writeparams)) (λ t. h) (λ t. h)

pub after_client_close-IsIntact :
    (id : ℕ) (s : TcpServer) → IsIntact s → IsIntact (after_client_close id s).0
unfolding Keeps after_client_close IsSound
after_client_close-IsIntact id s h =
    let (k, p) =
      on_session-IsIntact id (λ v. record v { is_closed = true }) s (λ v. (refl, refl)) h in
    (session_handle_close-IsSound id _ k, subst IsPool (sym (session_handle_close-pool id _)) p)

Step-IsIntact : (a : Allocator) {s s' : TcpServer} → Step a s s' → IsIntact s → IsIntact s'
unfolding Keeps IsSound
Step-IsIntact a (accepts {s = s} status i c r) (h, p) =
    (accept-IsSound a status i c r s h, subst IsPool (sym (accept-pool a status i c r s)) p)
Step-IsIntact a (closes {s = s} id) h = on_session-IsIntact id _ s closeinl-Keeps h
Step-IsIntact a (closed {s = s} id) h = after_client_close-IsIntact id s h
Step-IsIntact a (receives {s = s} fuel id buf nread v v' es e r) h =
    on_session-IsIntact id _ s (λ v. (refl, refl)) h
Step-IsIntact a (sends {s = s} code buff size v ok es l e) (h, p) =
    let (q, ps, err, sent, c, pool) = sendinl_lem a code buff size v.ctx s p l in
    result-IsIntact ps err s _ (ap (λ r. r.1) (some_eq (sym sent ∙ e))) h pool
Step-IsIntact a (broadcasts {s = s} code buff size excluded es l e) (h, p) =
    let (ps, err, fs, sent, reached, pool) =
      broadcastinl-Reaches a code buff size excluded s h.1 p l in
    result-IsIntact ps err s _ (ap (λ r. r.0) (some_eq (sym sent ∙ e))) h pool
Step-IsIntact a (gives_back {s = s} p v) (h, k) =
    (after_send-IsSound p s h, after_send-IsPool p s v k)

-- In every order of connections that come however far, closes, received bytes, sends, broadcasts and
-- finished writes, every context that was allocated stands in exactly one place (one session of the
-- map, the idle list once, or the freed), the map's keys are ids that were given out, in order and
-- those of their sessions, and the two pools hold at most 21 entries.
pub Reach-IsIntact : (a : Allocator) {s s' : TcpServer} → Reach a s s' → IsIntact s → IsIntact s'
Reach-IsIntact a here h = h
Reach-IsIntact a (next r step) h = Step-IsIntact a step (Reach-IsIntact a r h)
