-- ===== src/Dispatch/Outbox/Delivery.antt =====
-- A wake-up of the loop on a server: each broadcast that waits reaches each session that it is for.
use test_libuv.Common.{
  ℕ, ◌≡◌, ◌∙◌, refl, sym, ap, ap₂, some, List, [], ◌∷◌, ◌++◌, append-nil, append_assoc, arith, inl,
  inr, ℤ,
}
use test_libuv.Event.{UvEvent}
use test_libuv.PacketSync.{Allocator}
use test_libuv.Looper.{Looper, handle_all}
use test_libuv.Looper
use test_libuv.TcpServer.{Session, TcpServer, Effect, writes, find}
use test_libuv.TcpServer
use test_libuv.TcpSession.Steps.{IsIntact}
use test_libuv.Dispatch.Outbox.{handle, woken, bytes_to, messages_for, AllReady}
use test_libuv.Dispatch.Outbox.Sessions.{address_of-find, find-address_of}
use test_libuv.Dispatch.Outbox.Events.{Serves, event-Serves}

-- The sessions that are there stay, so what was ready is ready.
AllReady-Serves :
    {s s' : TcpServer} {done : List UvEvent} {es : List Effect} (queue : List UvEvent)
    → Serves s done s' es
    → AllReady s queue
    → AllReady s' queue
AllReady-Serves [] h r = tt
AllReady-Serves (e ∷ queue) h (inl own, r) = (inl own, AllReady-Serves queue h r)
AllReady-Serves {s} {s'} (e ∷ queue) h (inr (d, (v, f)), r) = (
  inr (
    d,
    find-address_of e.target v.ctx.address s'.session_map
        (h.sessions e.target ∙ address_of-find e.target v s.session_map f),
  ),
  AllReady-Serves queue h r,
)

bytes_to-append :
    (x : ℕ) (es fs : List Effect) → bytes_to x (es ++ fs) ≡ bytes_to x es ++ bytes_to x fs
unfolding bytes_to
bytes_to-append x [] fs = refl
bytes_to-append x (writes y p ∷ es) fs = ground (arith, bytes_to-append x es fs)
bytes_to-append x (TcpServer.pushes e ∷ es) fs = bytes_to-append x es fs
bytes_to-append x (TcpServer.closes_looper ∷ es) fs = bytes_to-append x es fs
bytes_to-append x (TcpServer.closes_server ∷ es) fs = bytes_to-append x es fs
bytes_to-append x (TcpServer.closes_handle y ∷ es) fs = bytes_to-append x es fs
bytes_to-append x (TcpServer.shuts_down y ∷ es) fs = bytes_to-append x es fs
bytes_to-append x (TcpServer.calls_new_conn y ∷ es) fs = bytes_to-append x es fs
bytes_to-append x (TcpServer.calls_close y ∷ es) fs = bytes_to-append x es fs
bytes_to-append x (TcpServer.calls_recv p y ∷ es) fs = bytes_to-append x es fs

messages_for-cons :
    (id : ℕ) (e : UvEvent) (queue : List UvEvent)
    → messages_for id (e ∷ queue) ≡ messages_for id (e ∷ []) ++ messages_for id queue
unfolding messages_for
messages_for-cons id e queue = ground arith

Serves-then :
    {s s1 s2 : TcpServer} {e : UvEvent} {queue : List UvEvent} {es more : List Effect}
    → Serves s (e ∷ []) s1 es
    → Serves s1 queue s2 more
    → Serves s (e ∷ queue) s2 (es ++ more)
Serves-then {e = e} {queue} {es} {more} h k = record {
  intact = k.intact;
  sessions = λ id. k.sessions id ∙ h.sessions id;
  contexts = λ x. k.contexts x ∙ h.contexts x;
  delivered = λ id x at.
      bytes_to-append x es more
      ∙ ap₂ ◌++◌ (h.delivered id x at) (k.delivered id x (h.sessions id ∙ at))
      ∙ sym (messages_for-cons id e queue);
  nothing_else = λ x none_there.
      bytes_to-append x es more
      ∙ ap₂ ◌++◌ (h.nothing_else x none_there) (k.nothing_else x (h.contexts x ∙ none_there));
}

module _ (a : Allocator) (code : UvEvent → ℕ → ℤ) where
  queue-Serves :
      (queue : List UvEvent) (s : TcpServer) (before : List Effect)
      → IsIntact s
      → AllReady s queue
      → (s' : TcpServer) × (es : List Effect) × (handle_all (handle a code) queue (some (s, before))
          ≡ some (s', before ++ es))
        × Serves s queue s' es
  unfolding handle_all handle messages_for bytes_to
  queue-Serves [] s before h r = (
    s,
    [],
    ap (λ l. some (s, l)) (sym (append-nil before)),
    record {
      intact = h;
      sessions = λ id. refl;
      contexts = λ x. refl;
      delivered = λ id x at. refl;
      nothing_else = λ x none_there. refl;
    },
  )
  queue-Serves (e ∷ queue) s before h (ready, r) =
      let (s1, es, ran, served) = event-Serves a code e s h ready in
      let (s2, more, rest, served') =
        queue-Serves queue s1 (before ++ es) served.intact (AllReady-Serves queue served r) in
      (
        s2,
        es ++ more,
        rw (ran, handle) (rest ∙ ap (λ l. some (s2, l)) (append_assoc before es more)),
        Serves-then served served',
      )

  -- On a server between two callbacks, whose queue holds broadcasts with as many bytes as they
  -- announce and events of sessions that are in the map: one wake-up of the loop, whichever writes
  -- libuv refuses, has no fault and empties the queue; for each session the bytes that `uv_write`
  -- was called on are, message by message and in order, those of the broadcasts that do not leave
  -- out its id, whatever other events stand between them; nothing is written to a context that no
  -- session has; and the server is intact, with the same sessions on the same contexts.
  pub woken-Serves :
      (l : Looper) (s : TcpServer)
      → IsIntact s
      → AllReady s l.event_queue
      → (s' : TcpServer) × (es : List Effect) × (woken a code l s
          ≡ (record l { event_queue = [] }, some (s', es)))
        × Serves s l.event_queue s' es
  unfolding woken Looper.do_event
  woken-Serves l s h r =
      let (s', es, ran, served) = queue-Serves l.event_queue s [] h r in
      (s', es, ap (λ o. (record l { event_queue = [] }, o)) ran, served)
