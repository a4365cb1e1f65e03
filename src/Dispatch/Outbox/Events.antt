-- ===== src/Dispatch/Outbox/Events.antt =====
-- What the handling of one event does on a server.
use test_libuv.Common.{
  ℕ, ◌≤◌, ◌≡◌, ◌≢◌, ◌==◌, ◌∙◌, refl, ap, false, some, List, [], ◌∷◌, arith, length, inl, inr,
  Bool-cases, ℤ, ==_iff,
}
use test_libuv.Event.{UvEvent}
use test_libuv.PacketSync.{Allocator}
use test_libuv.TcpServer.{Session, TcpServer, Effect, writes, find}
use test_libuv.TcpServer
use test_libuv.TcpServer.Maps.{in_map}
use test_libuv.TcpServer.Ownership.{IsSound}
use test_libuv.TcpServer.Sending.{is_broadcast, bytes_at}
use test_libuv.TcpServer.Sending
use test_libuv.TcpServer.Writes.{with_pool}
use test_libuv.TcpServer.Broadcast.{broadcastinl-Reaches}
use test_libuv.TcpSession
use test_libuv.TcpSession.{on_session}
use test_libuv.TcpSession.Steps.{IsIntact, result-IsIntact, on_session-IsIntact, in_map-update}
use test_libuv.Dispatch.{dispatch}
use test_libuv.Dispatch.Outbox.{bytes_to, messages_for, IsReady}
use test_libuv.Dispatch.Outbox.Sessions.{
  address_of, address_of-update, update_found, do_event-Keeps, do_event-silent, bytes_to-Reaches,
  copies-none, copies-once,
}

-- What the handling of a queue does: the sessions and their contexts are what they were, each was
-- sent the messages for it, and nobody else anything.
pub record Serves (s : TcpServer) (queue : List UvEvent) (s' : TcpServer) (es : List Effect)
    : Type 0 where
  pub intact : IsIntact s'
  pub sessions : (id : ℕ) → address_of id s'.session_map ≡ address_of id s.session_map
  pub contexts : (x : ℕ) → in_map x s'.session_map ≡ in_map x s.session_map
  pub delivered :
      (id x : ℕ) → address_of id s.session_map ≡ some x → bytes_to x es ≡ messages_for id queue
  pub nothing_else : (x : ℕ) → in_map x s.session_map ≡ 0 → bytes_to x es ≡ []

one_session : (x : ℕ) (s : TcpServer) → IsIntact s → in_map x s.session_map ≤ 1
unfolding IsSound
one_session x s ((h, m, l), p) = ground (arith, h x)

module _ (a : Allocator) (code : UvEvent → ℕ → ℤ) where
  server-Serves :
      (e : UvEvent) (s : TcpServer)
      → IsIntact s
      → e.target ≡ 0
      → e.size ≤ length (bytes_at e.buff)
      → (s' : TcpServer) × (es : List Effect) × (dispatch a (code e) e s ≡ some (s', es))
        × Serves s (e ∷ []) s' es
  unfolding dispatch TcpServer.Sending.do_event IsSound messages_for bytes_to
  server-Serves e s h z l =
      let own = (==_iff e.target 0).1 z in
      elim (Bool-cases (is_broadcast e.type)) [
        | inl b ↦
            let (ps, err, es, ran, reached, pool) =
              broadcastinl-Reaches a (code e) (bytes_at e.buff) e.size e.list s h.0.1 h.1 l in
            (
              with_pool ps err s,
              es,
              rw (own, b) ran,
              record {
                intact = result-IsIntact ps err s (with_pool ps err s) refl h.0 pool;
                sessions = λ id. refl;
                contexts = λ x. refl;
                delivered = λ id x at.
                    bytes_to-Reaches x _ _ es reached
                    ∙ copies-once id x _ e.list s.session_map at (one_session x s h)
                    ∙ ground arith;
                nothing_else = λ x none_there.
                    bytes_to-Reaches x _ _ es reached
                    ∙ copies-none x _ e.list s.session_map none_there;
              },
            )
        | inr b ↦ (
          s,
          [],
          rw (own, b) refl,
          record {
            intact = h;
            sessions = λ id. refl;
            contexts = λ x. refl;
            delivered = λ id x at. ground arith;
            nothing_else = λ x none_there. refl;
          },
        )
      ]

  session-Serves :
      (e : UvEvent) (v : Session) (s : TcpServer)
      → IsIntact s
      → e.target ≢ 0
      → find e.target s.session_map ≡ some v
      → (s' : TcpServer) × (es : List Effect) × (dispatch a (code e) e s ≡ some (s', es))
        × Serves s (e ∷ []) s' es
  unfolding dispatch messages_for
  session-Serves e v s h d f =
      let other : (e.target == 0) ≡ false = ground arith in
      let g : Session → Session = λ w. (TcpSession.do_event e w).0 in
      (
        on_session e.target g s,
        (TcpSession.do_event e v).1,
        rw (f, other)
            (ap (λ m. some (record s { session_map = m }, (TcpSession.do_event e v).1))
              (update_found e.target g v s.session_map f)),
        record {
          intact = on_session-IsIntact e.target g s (do_event-Keeps e) h;
          sessions = λ id. address_of-update id e.target g s.session_map (do_event-Keeps e);
          contexts = λ x. in_map-update x e.target g s.session_map (do_event-Keeps e);
          delivered = λ id x at. do_event-silent x e v ∙ ground arith;
          nothing_else = λ x none_there. do_event-silent x e v;
        },
      )

  pub event-Serves :
      (e : UvEvent) (s : TcpServer)
      → IsIntact s
      → IsReady s e
      → (s' : TcpServer) × (es : List Effect) × (dispatch a (code e) e s ≡ some (s', es))
        × Serves s (e ∷ []) s' es
  event-Serves e s h (inl (z, l)) = server-Serves e s h z l
  event-Serves e s h (inr (d, (v, f))) = session-Serves e v s h d f
