-- ===== src/Udp/Outbox/Order.antt =====
-- The order of the datagrams of a `CUvUdp`.
use test_libuv.Common.{
  ℕ, ◌≤◌, ◌≡◌, ◌∙◌, refl, sym, ap, subst, inl, inr, none, some, some_eq, List, [], ◌∷◌, ◌++◌,
  append-nil, append_assoc, arith, length, take, length-take, Bool-cases, leb, ◌⊎◌,
}
use test_libuv.Event.{UvEvent, UvEventType, plain_event}
use test_libuv.PacketSync.{Allocator}
use test_libuv.Looper.{push_all, Looper, push_event, handle_all}
use test_libuv.Looper
use test_libuv.Looper.Queue.{push_all-queue}
use test_libuv.Udp.{Udp, Effect, send_to, bytes_at}
use test_libuv.Udp.Sending.{send_to_lem, do_event_lem}
use test_libuv.Udp.Outbox.{
  Datagram, handed, pushed, pending, handle, UdpSystem, accepts, send, woken, Step, sent, wakes,
  changes, Reach, here, next, quiet,
}

-- An event of `Send`, as it waits.
pub IsDatagram : UvEvent → Type 0
IsDatagram e =
    (id : ℕ) × (size : ℕ) × (addr : ℕ) × (bytes : List ℕ) × (length bytes ≡ size)
    × (e
        ≡ record (plain_event UvEventType.write id) { buff = some bytes; size = size; addr = addr })

pub AllDatagrams : List UvEvent → Type 0
AllDatagrams [] = Unit
AllDatagrams (e ∷ es) = IsDatagram e × AllDatagrams es

handle_all-pending :
    (a : Allocator) (u : Udp) (queue : List UvEvent) (w : List Datagram)
    → AllDatagrams queue
    → handle_all (handle a u) queue (some w) ≡ some (w ++ pending queue)
unfolding handle_all handle pending handed AllDatagrams IsDatagram
handle_all-pending a u [] w h = ap some (sym (append-nil w))
handle_all-pending a u (e ∷ queue) w ((id, size, addr, bytes, fits, same), h) =
    let ran = do_event_lem a id size addr bytes u fits in
    let rest = handle_all-pending a u queue (w ++ ((addr, bytes) ∷ [])) h in
    rw (same, handle, ran) (rest ∙ ap some (append_assoc w ((addr, bytes) ∷ []) (pending queue)))

-- What `Send` pushes carries the bytes that it accepts, or the assertion on their number fails.
send_to-pushed :
    (a : Allocator) (trunc : ℕ → ℕ) (bytes : List ℕ) (size addr : ℕ) (u : Udp)
    → size ≤ length bytes
    → ((n : ℕ) × (es : List Effect) × (send_to trunc bytes size addr u ≡ some (n, es))
        × (pending (pushed es) ≡ accepts u.loop trunc n bytes addr)
        × AllDatagrams (pushed es))
      ⊎ (send_to trunc bytes size addr u ≡ none)
unfolding pending pushed accepts AllDatagrams IsDatagram
send_to-pushed a trunc bytes size addr u l = elim (Bool-cases u.loop) [
  | inl attached ↦ elim (send_to_lem a trunc bytes size addr u attached l) [
    | inl (_, e, _) ↦ inl (
      _,
      _,
      e,
      rw (attached) refl,
      (
        (u.udp_id, size, trunc addr, take size bytes, omega (arith, length-take size bytes), refl),
        tt,
      ),
    )
    | inr (_, e) ↦ inr e
  ]
  | inr detached ↦ elim (Bool-cases (leb size 1400)) [
    | inl t ↦ inl (0, [], unfold send_to in rw (t, detached) refl, rw (detached) refl, tt)
    | inr t ↦ inr (unfold send_to in rw (t) refl)
  ]
]

-- What was accepted is what was handed over and then what waits.
pub record IsInOrder (s : UdpSystem) : Type 0 where
  pub no_loss : s.accepted ≡ s.out ++ pending s.looper.event_queue
  pub datagrams : AllDatagrams s.looper.event_queue

pending-append : (xs ys : List UvEvent) → pending (xs ++ ys) ≡ pending xs ++ pending ys
unfolding pending
pending-append [] ys = refl
pending-append (x ∷ xs) ys = ap (◌∷◌ (x.addr, bytes_at x.buff)) (pending-append xs ys)

append-AllDatagrams :
    (xs ys : List UvEvent) → AllDatagrams xs → AllDatagrams ys → AllDatagrams (xs ++ ys)
unfolding AllDatagrams
append-AllDatagrams [] ys h k = k
append-AllDatagrams (x ∷ xs) ys (h, hs) k = (h, append-AllDatagrams xs ys hs k)

-- More events behind those that wait.
push_all-IsInOrder :
    (s : UdpSystem) (es : List UvEvent) (more : List Datagram)
    → AllDatagrams es
    → pending es ≡ more
    → IsInOrder s
    → IsInOrder (record s { looper = push_all es s.looper; accepted = s.accepted ++ more })
push_all-IsInOrder s es more f e o = record {
  no_loss =
      ap (λ l. l ++ more) o.no_loss
      ∙ append_assoc s.out (pending s.looper.event_queue) more
      ∙ ap (◌++◌ s.out) (
          ap (◌++◌ (pending s.looper.event_queue)) (sym e)
          ∙ sym (pending-append s.looper.event_queue es)
          ∙ ap pending (sym (push_all-queue es s.looper)));
  datagrams =
      subst AllDatagrams (sym (push_all-queue es s.looper))
        (append-AllDatagrams s.looper.event_queue es o.datagrams f);
}

-- A wake-up never faults, and hands over all that waits.
woken_lem :
    (a : Allocator) (s : UdpSystem)
    → IsInOrder s
    → woken a s
      ≡ some (record s { looper = record s.looper { event_queue = [] }; out = s.accepted })
unfolding woken Looper.do_event
woken_lem a s o =
    rw (handle_all-pending a s.endpoint s.looper.event_queue s.out o.datagrams, woken)
      (ap (λ w. some (record s { looper = record s.looper { event_queue = [] }; out = w }))
        (sym o.no_loss))

Step-IsInOrder :
    {a : Allocator} {trunc : ℕ → ℕ} {s t : UdpSystem} → Step a trunc s t → IsInOrder s → IsInOrder t
unfolding send AllDatagrams pending
Step-IsInOrder {a} {trunc} {s} (sent bytes size addr fits e) o =
    elim (send_to-pushed a trunc bytes size addr s.endpoint fits) [
      | inl (n, es, answered, carried, f) ↦
          subst IsInOrder (some_eq (sym (rw (answered) refl) ∙ e)) (
            push_all-IsInOrder s (pushed es) (accepts s.endpoint.loop trunc n bytes addr) f carried
              o)
      | inr failed ↦ absurd (ground (arith, rw (failed) at e))
    ]
Step-IsInOrder {a} {s = s} (wakes e) o =
    subst IsInOrder (some_eq (sym (woken_lem a s o) ∙ e))
      (record { no_loss = sym (append-nil s.accepted); datagrams = tt })
Step-IsInOrder (changes u) o = record { no_loss = o.no_loss; datagrams = o.datagrams }

Reach-IsInOrder :
    (a : Allocator) (trunc : ℕ → ℕ) (u : Udp) (l : Looper) {s : UdpSystem}
    → Reach a trunc (quiet u l) s
    → IsInOrder s
unfolding pending AllDatagrams
Reach-IsInOrder a trunc u l here = record { no_loss = refl; datagrams = tt }
Reach-IsInOrder a trunc u l (next r step) = Step-IsInOrder step (Reach-IsInOrder a trunc u l r)

-- However threads send, any number of bytes and also none, and call other methods, and whenever the
-- loop wakes, from an empty queue on: what was handed to `uv_udp_send` is, datagram by datagram, a
-- first part of what `Send` has accepted, which is all that it is given while the object has its
-- loop, each for as much of its address as the event holds; the rest waits in the queue, in order;
-- and one wake-up does not fault and hands over all of it.
pub Reach-datagrams_in_order :
    (a : Allocator) (trunc : ℕ → ℕ) (u : Udp) (l : Looper) {s : UdpSystem}
    → Reach a trunc (quiet u l) s
    → (s.accepted ≡ s.out ++ pending s.looper.event_queue)
      × (woken a s
          ≡ some (record s { looper = record s.looper { event_queue = [] }; out = s.accepted }))
Reach-datagrams_in_order a trunc u l {s} r =
    let o = Reach-IsInOrder a trunc u l r in (o.no_loss, woken_lem a s o)
