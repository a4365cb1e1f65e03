-- ===== src/Dispatch/Outbox/Sessions.antt =====
-- What one event does to the sessions of a server, and to whom it writes.
use test_libuv.Common.{
  ℕ, ◌≤◌, ◌≡◌, ◌==◌, refl, Option, none, some, List, [], ◌∷◌, if◌then◌else◌, arith, ℕ_discrete,
}
use test_libuv.Event.{UvEvent, UvEventType}
use test_libuv.TcpServer.{Session, SessionCtx, Effect, find}
use test_libuv.TcpServer.Maps.{in_map}
use test_libuv.TcpServer.Broadcast.{member, recipients, Reaches}
use test_libuv.TcpSession.{update, closeinl, shutdowinl, do_event}
use test_libuv.TcpSession.Steps.{Keeps, closeinl-Keeps}
use test_libuv.Dispatch.Outbox.{bytes_to}

-- The address of the context of a session.
unfoldable pub address_of : ℕ → List (ℕ × Session) → Option ℕ
address_of id [] = none
address_of id ((k, v) ∷ m) =
    let rest = address_of id m in if id == k then some v.ctx.address else rest

pub address_of-find :
    (id : ℕ) (v : Session) (m : List (ℕ × Session))
    → find id m ≡ some v
    → address_of id m ≡ some v.ctx.address
unfolding find address_of
address_of-find id v [] h = ground arith
address_of-find id v ((k, w) ∷ m) h = ground (arith, address_of-find id v m)

pub find-address_of :
    (id x : ℕ) (m : List (ℕ × Session))
    → address_of id m ≡ some x
    → (v : Session) × (find id m ≡ some v)
unfolding find address_of
find-address_of id x [] h = ground arith
find-address_of id x ((k, w) ∷ m) h = elim (ℕ_discrete id k) [
  | yes e ↦ (w, ground arith)
  | no d ↦ let (v, f) = find-address_of id x m (ground arith) in (v, ground arith)
]

pub address_of-update :
    (id k : ℕ) (f : Session → Session) (m : List (ℕ × Session))
    → Keeps f
    → address_of id (update k f m) ≡ address_of id m
unfolding address_of update Keeps
address_of-update id k f [] h = refl
address_of-update id k f ((j, v) ∷ m) h = ground (arith, h v, address_of-update id k f m h)

-- To put what `f` makes of the session that is found is to apply `f` to it.
pub update_found :
    (k : ℕ) (f : Session → Session) (v : Session) (m : List (ℕ × Session))
    → find k m ≡ some v
    → update k (λ w. f v) m ≡ update k f m
unfolding find update
update_found k f v [] h = refl
update_found k f v ((j, w) ∷ m) h = ground (arith, update_found k f v m)

type-Keeps :
    (e : UvEvent) (type : UvEventType) → Keeps (λ v. (do_event (record e { type = type }) v).0)
unfolding Keeps do_event
type-Keeps e UvEventType.connect v = (refl, refl)
type-Keeps e UvEventType.write v = (refl, refl)
type-Keeps e UvEventType.broadcast v = (refl, refl)
type-Keeps e UvEventType.shutdown v = (refl, refl)
type-Keeps e UvEventType.close v = closeinl-Keeps v

pub do_event-Keeps : (e : UvEvent) → Keeps (λ v. (do_event e v).0)
do_event-Keeps e = type-Keeps e e.type

type-silent :
    (x : ℕ) (e : UvEvent) (type : UvEventType) (v : Session)
    → bytes_to x (do_event (record e { type = type }) v).1 ≡ []
unfolding bytes_to do_event closeinl shutdowinl
type-silent x e UvEventType.connect v = refl
type-silent x e UvEventType.write v = refl
type-silent x e UvEventType.broadcast v = refl
type-silent x e UvEventType.shutdown v = refl
type-silent x e UvEventType.close v = ground arith

-- A session that handles an event writes nothing.
pub do_event-silent : (x : ℕ) (e : UvEvent) (v : Session) → bytes_to x (do_event e v).1 ≡ []
do_event-silent x e v = type-silent x e e.type v

-- The message, as often as a context is among these.
unfoldable pub copies : ℕ → List ℕ → List SessionCtx → List (List ℕ)
copies x message [] = []
copies x message (ctx ∷ ctxs) =
    let rest = copies x message ctxs in if x == ctx.address then message ∷ rest else rest

pub bytes_to-Reaches :
    (x : ℕ) (message : List ℕ) (ctxs : List SessionCtx) (es : List Effect)
    → Reaches message ctxs es
    → bytes_to x es ≡ copies x message ctxs
unfolding Reaches bytes_to copies
bytes_to-Reaches x message [] es r = rw (r) refl
bytes_to-Reaches x message (ctx ∷ ctxs) es (p, more, e, (v, c), r) =
    let rest = bytes_to-Reaches x message ctxs more r in rw (e, c, rest) refl

-- A broadcast leaves out a context that is not in the map.
pub copies-none :
    (x : ℕ) (message excluded : List ℕ) (m : List (ℕ × Session))
    → in_map x m ≡ 0
    → copies x message (recipients excluded m) ≡ []
unfolding in_map recipients copies
copies-none x message excluded [] h = refl
copies-none x message excluded ((k, v) ∷ m) h = ground (arith, copies-none x message excluded m)

in_map-address_of : (id x : ℕ) (m : List (ℕ × Session)) → address_of id m ≡ some x → 1 ≤ in_map x m
unfolding address_of in_map
in_map-address_of id x [] h = ground arith
in_map-address_of id x ((k, v) ∷ m) h = ground (arith, in_map-address_of id x m)

-- To the context of a session that is there, with no other session on the same context, goes one,
-- unless the id is left out.
pub copies-once :
    (id x : ℕ) (message excluded : List ℕ) (m : List (ℕ × Session))
    → address_of id m ≡ some x
    → in_map x m ≤ 1
    → copies x message (recipients excluded m) ≡ (if member id excluded then [] else message ∷ [])
unfolding in_map recipients copies address_of
copies-once id x message excluded [] h l = ground arith
copies-once id x message excluded ((k, v) ∷ m) h l = elim (ℕ_discrete id k) [
  | yes e ↦ ground (arith, h, copies-none x message excluded m)
  | no d ↦ ground (arith, h, in_map-address_of id x m, copies-once id x message excluded m)
]
