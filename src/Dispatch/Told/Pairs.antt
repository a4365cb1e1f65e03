-- ===== src/Dispatch/Told/Pairs.antt =====
-- The user of a `CTcpServer` is told of each session once, and of its end once.
use test_libuv.Common.{
  ℕ, suc, ◌+◌, ◌≤◌, ◌≡◌, ◌∙◌, refl, sym, ap, subst, some_eq, true, List, [], ◌∷◌, ◌++◌, arith, hit,
  ltb, ℤ, if◌then◌else◌, inl, inr, append-nil,
}
use test_libuv.PacketSync.{Allocator}
use test_libuv.TcpServer.{
  Session, WriteParam, TcpServer, ErrMsg, Effect, calls_new_conn, find, session_handle_close,
}
use test_libuv.TcpServer.Accept.{accept_connection}
use test_libuv.TcpServer.Reuse.{Answers, Accepted, Refused, accept_lem}
use test_libuv.TcpServer.Ownership.{IsSound}
use test_libuv.TcpServer.Sending.{after_send}
use test_libuv.TcpServer.Writes.{with_pool, sendinl_lem}
use test_libuv.TcpServer.Broadcast.{broadcastinl-Reaches}
use test_libuv.TcpSession.{closeinl, on_session, after_client_close}
use test_libuv.TcpSession.Steps
use test_libuv.TcpSession.Steps.{IsIntact, Reach-IsIntact, after_client_close-IsIntact}
use test_libuv.TcpSession.Settings.{accept-Same, after_client_close-Same, Step-Same}
use test_libuv.Dispatch.Shutdown.{in_keys, in_keys-update}
use test_libuv.Dispatch.Told.{
  opened, ended, Reach, here, accepts, closed, closes, receives, sends, broadcasts, gives_back,
}
use test_libuv.Dispatch.Told.Silent.{
  opened-append, ended-append, IsSilent, closeinl-IsSilent, Reaches-IsSilent, SilentDone,
  recv-IsSilent,
}
use test_libuv.Dispatch.Told.Keys.{in_keys-insert, close_found-last_id, closed_lem}

-- Each session that was announced is open or was reported as closed, and none was announced twice.
record IsTold (t : TcpServer) (es : List Effect) : Type 0 where
  intact : IsIntact t
  new_cb : t.has_new_conn_cb ≡ true
  close_cb : t.has_close_cb ≡ true
  told : (x : ℕ) → opened x es ≡ ended x es + in_keys x t.session_map
  once : (x : ℕ) → opened x es ≤ (if ltb t.last_id x then 0 else 1)

-- A step that tells the user nothing.
silent-IsTold :
    (a : Allocator) (t t' : TcpServer) (es more : List Effect)
    → Steps.Step a t t'
    → ((x : ℕ) → in_keys x t'.session_map ≡ in_keys x t.session_map)
    → t'.last_id ≡ t.last_id
    → IsSilent more
    → IsTold t es
    → IsTold t' (es ++ more)
silent-IsTold a t t' es more step keys last quiet i =
    let (l, n, c) = Step-Same a step i.intact in
    record {
      intact = Reach-IsIntact a (Steps.next Steps.here step) i.intact;
      new_cb = n ∙ i.new_cb;
      close_cb = c ∙ i.close_cb;
      told = λ x.
          omega (arith, i.told x, keys x, quiet x, opened-append x es more, ended-append x es more);
      once = λ x. ground (arith, i.once x, last, quiet x, opened-append x es more);
    }

accept-IsTold :
    (a : Allocator) (t : TcpServer) (es : List Effect) (status i c r : ℤ)
    → IsTold t es
    → let (t', more) = accept_connection a status i c r t in IsTold t' (es ++ more)
unfolding Answers Accepted Refused IsSound
accept-IsTold a t es status i c r h =
    let (t', more) = accept_connection a status i c r t in
    let step = Steps.accepts {s = t} status i c r in
    let (l, n, cl) = accept-Same a status i c r t in
    elim (accept_lem a status i c r t) [
      | inr (b, (keys, last, inl q)) ↦
          silent-IsTold a t t' es more step (λ x. ap (in_keys x) keys) last
            (λ x. (ap (opened x) q, ap (ended x) q)) h
      | inr (b, (keys, last, inr (address, q))) ↦
          silent-IsTold a t t' es more step (λ x. ap (in_keys x) keys) last
            (λ x. (ap (opened x) q, ap (ended x) q)) h
      | inl (b, (v, m, last, k1, k2, k3, k4, q)) ↦
          let id = suc t.last_id in
          let one : more ≡ calls_new_conn id ∷ [] =
            q ∙ ap (λ set. if set then calls_new_conn id ∷ [] else []) h.new_cb in
          let keys : (x : ℕ) → in_keys x t'.session_map ≡ hit x id + in_keys x t.session_map =
            λ x. ap (in_keys x) m ∙ in_keys-insert x 1 id v t.session_map h.intact.0.1 in
          record {
            intact = Reach-IsIntact a (Steps.next Steps.here step) h.intact;
            new_cb = n ∙ h.new_cb;
            close_cb = cl ∙ h.close_cb;
            told = λ x. omega (
              arith,
              h.told x,
              keys x,
              opened-append x es more,
              ended-append x es more,
              ap (opened x) one,
              ap (ended x) one,
            );
            once = λ x. ground (arith, h.once x, last, opened-append x es more, ap (opened x) one);
          }
    ]

closed-IsTold :
    (a : Allocator) (t : TcpServer) (es : List Effect) (id : ℕ)
    → IsTold t es
    → let (t', more) = after_client_close id t in IsTold t' (es ++ more)
unfolding after_client_close session_handle_close
closed-IsTold a t es id h =
    let (t', more) = after_client_close id t in
    let mark : Session → Session = λ v. record v { is_closed = true } in
    let t1 = on_session id mark t in
    let c = closed_lem id (find id t1.session_map) t1 refl h.close_cb in
    let (l, n, cl) = after_client_close-Same id t in
    record {
      intact = after_client_close-IsIntact id t h.intact;
      new_cb = n ∙ h.new_cb;
      close_cb = cl ∙ h.close_cb;
      told = λ x. omega (
        arith,
        h.told x,
        (c x).0,
        (c x).1,
        in_keys-update x id mark t.session_map,
        opened-append x es more,
        ended-append x es more,
      );
      once = λ x. ground (
        arith,
        h.once x,
        close_found-last_id id (find id t1.session_map) t1,
        (c x).1,
        opened-append x es more,
      );
    }

update-IsTold :
    (a : Allocator) (t : TcpServer) (es more : List Effect) (id : ℕ) (f : Session → Session)
    → Steps.Step a t (on_session id f t)
    → IsSilent more
    → IsTold t es
    → IsTold (on_session id f t) (es ++ more)
update-IsTold a t es more id f step quiet h =
    silent-IsTold a t (on_session id f t) es more step (λ x. in_keys-update x id f t.session_map)
      refl quiet h

pool-IsTold :
    (a : Allocator) (t t' : TcpServer) (es more : List Effect) (ps : List WriteParam) (err : ErrMsg)
    → with_pool ps err t ≡ t'
    → Steps.Step a t t'
    → IsSilent more
    → IsTold t es
    → IsTold t' (es ++ more)
pool-IsTold a t t' es more ps err e step quiet h =
    silent-IsTold a t t' es more step (λ x. sym (ap (λ s. in_keys x s.session_map) e))
      (sym (ap (λ s. s.last_id) e)) quiet h

Reach-IsTold :
    (a : Allocator) {s t : TcpServer} {es : List Effect}
    → Reach a s t es
    → IsTold s []
    → IsTold t es
unfolding IsSound after_send
Reach-IsTold a here h = h
Reach-IsTold a (accepts {t = t} {es = es} status i c r room p) h =
    accept-IsTold a t es status i c r (Reach-IsTold a p h)
Reach-IsTold a (closed {t = t} {es = es} id p) h = closed-IsTold a t es id (Reach-IsTold a p h)
Reach-IsTold a (closes {t = t} {es = es} id v f p) h =
    update-IsTold a t es (closeinl v).1 id _ (Steps.closes id) (closeinl-IsSilent v)
      (Reach-IsTold a p h)
Reach-IsTold a (receives {t = t} {es = es} fuel id buf nread v v' more f e p) h =
    update-IsTold a t es more id _ (Steps.receives fuel id buf nread v v' more f e)
      (subst SilentDone e (recv-IsSilent a fuel t.has_recv_cb buf nread v)) (Reach-IsTold a p h)
Reach-IsTold a (sends {t = t} {t' = t'} {es = es} code buff size v ok more l e p) h =
    let k = Reach-IsTold a p h in
    let (q, ps, err, sent, c, pool) = sendinl_lem a code buff size v.ctx t k.intact.1 l in
    let same = some_eq (sym sent ∙ e) in
    pool-IsTold a t t' es more ps err (ap (λ r. r.1) same)
      (Steps.sends code buff size v ok more l e)
      (subst IsSilent (ap (λ r. r.2) same) (λ x. (refl, refl))) k
Reach-IsTold a (broadcasts {t = t} {t' = t'} {es = es} code buff size excluded more l e p) h =
    let k = Reach-IsTold a p h in
    let (ps, err, fs, sent, reached, pool) =
      broadcastinl-Reaches a code buff size excluded t k.intact.0.1 k.intact.1 l in
    let same = some_eq (sym sent ∙ e) in
    pool-IsTold a t t' es more ps err (ap (λ r. r.0) same)
      (Steps.broadcasts code buff size excluded more l e)
      (subst IsSilent (ap (λ r. r.1) same) (Reaches-IsSilent _ _ fs reached)) k
Reach-IsTold a (gives_back {t = t} {es = es} w v p) h =
    subst (IsTold (after_send w t)) (append-nil es) (
      silent-IsTold a t (after_send w t) es [] (Steps.gives_back w v) (λ x. ground arith)
        (ground arith) (λ x. (refl, refl)) (Reach-IsTold a p h))

-- From a server without sessions, whose user has the callbacks for new and for closed sessions, in
-- every order of connections, closes, received bytes, sends, broadcasts and finished writes, in
-- which a connection comes only while the counter of the ids is below the largest `int`: each
-- session of which the user was told is in the map, or the user was told of its end, and not both;
-- the user was told of no others; and no id was announced twice.
pub Reach-told :
    (a : Allocator) (s t : TcpServer) (es : List Effect)
    → IsIntact s
    → s.session_map ≡ []
    → s.has_new_conn_cb ≡ true
    → s.has_close_cb ≡ true
    → Reach a s t es
    → (x : ℕ) → (opened x es ≡ ended x es + in_keys x t.session_map) × (opened x es ≤ 1)
unfolding in_keys
Reach-told a s t es intact empty n c r x =
    let h = Reach-IsTold a r (record {
      intact = intact;
      new_cb = n;
      close_cb = c;
      told = λ y. ground (arith, empty);
      once = λ y. ground arith;
    }) in
    (h.told x, ground (arith, h.once x))
