-- ===== src/Dispatch/NoPush.antt =====
-- What the handlers of events do while `DoEvent` holds the mutex of the queue. `PushEvent` on the
-- same thread would wait for that mutex for ever, and a callback of the user may call it.
use test_libuv.Common.{
  take_out, ℕ, subst, Bool, Option, none, some, List, [], ◌∷◌, ◌++◌, ◌==◌, arith, ℤ, inl, inr,
  Option-cases, if_elim, not, is_zero, slice, copy,
}
use test_libuv.Event.{UvEvent, UvEventType}
use test_libuv.PacketSync.{Allocator}
use test_libuv.TcpServer.{
  SessionCtx, Session, WriteParam, TcpServer, Effect, closes_handle, shuts_down, writes, find,
}
use test_libuv.TcpServer
use test_libuv.TcpServer.Sending.{
  take_from_pool, send_request, fill, sendinl, broadcast_loop, broadcastinl, is_broadcast, bytes_at,
}
use test_libuv.TcpServer.Sending
use test_libuv.TcpSession
use test_libuv.TcpSession.{on_session, closeinl, shutdowinl}
use test_libuv.TcpClient.{TcpClient}
use test_libuv.TcpClient
use test_libuv.Udp.{Udp}
use test_libuv.Udp
use test_libuv.Dispatch.{dispatch}

-- Calls of libuv only: no push, and no callback of the user.
abbrev pub OnlyCalls : List Effect → Type 0
OnlyCalls [] = Unit
OnlyCalls (closes_handle x ∷ es) = OnlyCalls es
OnlyCalls (shuts_down x ∷ es) = OnlyCalls es
OnlyCalls (writes x p ∷ es) = OnlyCalls es
OnlyCalls (_ ∷ es) = ⊥

OnlyCalls-append : (es fs : List Effect) → OnlyCalls es → OnlyCalls fs → OnlyCalls (es ++ fs)
OnlyCalls-append [] fs h k = k
OnlyCalls-append (closes_handle x ∷ es) fs h k = OnlyCalls-append es fs h k
OnlyCalls-append (shuts_down x ∷ es) fs h k = OnlyCalls-append es fs h k
OnlyCalls-append (writes x p ∷ es) fs h k = OnlyCalls-append es fs h k
OnlyCalls-append (TcpServer.pushes e ∷ es) fs h k = h
OnlyCalls-append (TcpServer.closes_looper ∷ es) fs h k = h
OnlyCalls-append (TcpServer.closes_server ∷ es) fs h k = h
OnlyCalls-append (TcpServer.calls_new_conn x ∷ es) fs h k = h
OnlyCalls-append (TcpServer.calls_close x ∷ es) fs h k = h
OnlyCalls-append (TcpServer.calls_recv x y ∷ es) fs h k = h

-- What a result that is there holds.
abbrev pub Holds {ℓ} : {A : Type ℓ} → (A → Type 0) → Option A → Type 0
Holds P none = Unit
Holds P (some x) = P x

sendinl-OnlyCalls :
    (a : Allocator) (code : ℤ) (buff : List ℕ) (size : ℕ) (ctx : SessionCtx) (s : TcpServer)
    → Holds (λ r. OnlyCalls r.2) (sendinl a code buff size ctx s)
unfolding sendinl send_request
sendinl-OnlyCalls a code buff size ctx s =
    let (p, s1) = take_from_pool a s.writeparams s in
    elim (Option-cases (fill a p buff size)) [
      | inl e ↦ rw (e) tt
      | inr (p', e) ↦ rw (e) (
          if_elim (λ (r : Bool × TcpServer × List Effect). OnlyCalls r.2) (not (is_zero code))
            (λ t. tt) (λ t. tt))
    ]

broadcast_loop-OnlyCalls :
    (a : Allocator) (code : ℕ → ℤ) (buff : List ℕ) (size : ℕ) (m : List (ℕ × Session))
    (excluded : List ℕ) (s : TcpServer)
    → Holds (λ r. OnlyCalls r.1) (broadcast_loop a code buff size m excluded s)
unfolding broadcast_loop
broadcast_loop-OnlyCalls a code buff size [] excluded s = tt
broadcast_loop-OnlyCalls a code buff size ((id, v) ∷ m) excluded s =
    elim (Option-cases (take_out id excluded)) [
      | inr (ids, e) ↦ rw (e, broadcast_loop) (broadcast_loop-OnlyCalls a code buff size m ids s)
      | inl e ↦ elim (Option-cases (sendinl a (code v.ctx.address) buff size v.ctx s)) [
        | inl f ↦ rw (e, broadcast_loop, f) tt
        | inr ((sent, s1, es), f) ↦
            elim (Option-cases (broadcast_loop a code buff size m excluded s1)) [
              | inl g ↦ rw (e, broadcast_loop, f, g) tt
              | inr ((s2, more), g) ↦
                  rw (e, broadcast_loop, f, g)
                    (OnlyCalls-append es more
                      (subst (Holds (λ r. OnlyCalls r.2)) f
                        (sendinl-OnlyCalls a (code v.ctx.address) buff size v.ctx s))
                      (subst (Holds (λ r. OnlyCalls r.1)) g
                        (broadcast_loop-OnlyCalls a code buff size m excluded s1)))
            ]
      ]
    ]

session-OnlyCalls :
    (e : UvEvent) (type : UvEventType) (v : Session)
    → OnlyCalls (TcpSession.do_event (record e { type = type }) v).1
unfolding TcpSession.do_event closeinl shutdowinl
session-OnlyCalls e UvEventType.connect v = tt
session-OnlyCalls e UvEventType.write v = tt
session-OnlyCalls e UvEventType.broadcast v = tt
session-OnlyCalls e UvEventType.shutdown v = tt
session-OnlyCalls e UvEventType.close v = ground arith

dispatch-OnlyCalls :
    (a : Allocator) (code : ℕ → ℤ) (e : UvEvent) (s : TcpServer)
    → Holds (λ r. OnlyCalls r.1) (dispatch a code e s)
unfolding dispatch TcpServer.Sending.do_event broadcastinl
dispatch-OnlyCalls a code e s =
    if_elim (Holds (λ (r : TcpServer × List Effect). OnlyCalls r.1)) (e.target == 0)
      (λ t.
        if_elim (Holds (λ (r : TcpServer × List Effect). OnlyCalls r.1)) (is_broadcast e.type)
          (λ b. broadcast_loop-OnlyCalls a code (bytes_at e.buff) e.size s.session_map e.list s)
          (λ b. tt))
      (λ t. session_calls (find e.target s.session_map))
  where
    session_calls :
        (found : Option Session)
        → Holds
            (λ (r : TcpServer × List Effect). OnlyCalls r.1)
            (elim found [
              | none ↦ none
              | some v ↦
                  let (v', es) = TcpSession.do_event e v in
                  some (on_session e.target (λ w. v') s, es)
            ])
    session_calls none = tt
    session_calls (some v) = session-OnlyCalls e e.type v

-- The same of a client and of a UDP endpoint.
abbrev pub ClientOnlyCalls : List TcpClient.Effect → Type 0
ClientOnlyCalls [] = Unit
ClientOnlyCalls (TcpClient.connects x ∷ es) = ClientOnlyCalls es
ClientOnlyCalls (TcpClient.starts_timer x ∷ es) = ClientOnlyCalls es
ClientOnlyCalls (TcpClient.writes x ∷ es) = ClientOnlyCalls es
ClientOnlyCalls (TcpClient.shuts_down ∷ es) = ClientOnlyCalls es
ClientOnlyCalls (TcpClient.closes x ∷ es) = ClientOnlyCalls es
ClientOnlyCalls (_ ∷ es) = ⊥

abbrev pub UdpOnlyCalls : List Udp.Effect → Type 0
UdpOnlyCalls [] = Unit
UdpOnlyCalls (Udp.sends x bytes ∷ es) = UdpOnlyCalls es
UdpOnlyCalls (_ ∷ es) = ⊥

sendinl-ClientOnlyCalls :
    (buff : Option (List ℕ)) (size : ℕ) (c : TcpClient)
    → Holds (λ r. ClientOnlyCalls r.1) (TcpClient.sendinl buff size c)
unfolding TcpClient.sendinl
sendinl-ClientOnlyCalls none size c = tt
sendinl-ClientOnlyCalls (some bytes) size c = elim (Option-cases (slice bytes 0 size)) [
  | inl e ↦ rw (e) tt
  | inr (out, e) ↦ rw (e) tt
]

client-OnlyCalls :
    (addr_code connect_code : ℤ) (e : UvEvent) (type : UvEventType) (c : TcpClient)
    → Holds
        (λ r. ClientOnlyCalls r.1)
        (TcpClient.do_event addr_code connect_code (record e { type = type }) c)
unfolding TcpClient.do_event TcpClient.connectinl TcpClient.closeinl TcpClient.close_tcp
    TcpClient.shutdowinl
client-OnlyCalls addr_code connect_code e UvEventType.connect c = ground arith
client-OnlyCalls addr_code connect_code e UvEventType.close c = ground arith
client-OnlyCalls addr_code connect_code e UvEventType.shutdown c = tt
client-OnlyCalls addr_code connect_code e UvEventType.write c =
    sendinl-ClientOnlyCalls e.buff e.size c
client-OnlyCalls addr_code connect_code e UvEventType.broadcast c = tt

udp-OnlyCalls : (a : Allocator) (e : UvEvent) (u : Udp) → Holds UdpOnlyCalls (Udp.do_event a e u)
unfolding Udp.do_event Udp.sendinl
udp-OnlyCalls a e u =
    if_elim (Holds UdpOnlyCalls) (Udp.is_write e.type)
      (λ t. elim (Option-cases (copy (a.malloc e.size) 0 (Udp.bytes_at e.buff) 0 e.size)) [
        | inl f ↦ rw (f) tt
        | inr (out, f) ↦ rw (f) tt
      ])
      (λ t. tt)

-- Whatever an event is and whichever object it is for, the server, one of its sessions, a client or
-- a UDP endpoint: its handler only calls libuv. It pushes no event and calls no callback of the
-- user while `DoEvent` holds the mutex of the queue.
pub do_event-OnlyCalls :
    (a : Allocator) (code : ℕ → ℤ) (addr_code connect_code : ℤ) (e : UvEvent) (s : TcpServer)
    (c : TcpClient) (u : Udp)
    → Holds (λ r. OnlyCalls r.1) (dispatch a code e s)
      × Holds (λ r. ClientOnlyCalls r.1) (TcpClient.do_event addr_code connect_code e c)
      × Holds UdpOnlyCalls (Udp.do_event a e u)
do_event-OnlyCalls a code addr_code connect_code e s c u = (
  dispatch-OnlyCalls a code e s,
  client-OnlyCalls addr_code connect_code e e.type c,
  udp-OnlyCalls a e u,
)
