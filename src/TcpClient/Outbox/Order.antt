-- ===== src/TcpClient/Outbox/Order.antt =====
-- The order of the messages of a `CTcpClient`.
use test_libuv.Common.{
  ℕ, ◌≤◌, ◌%◌, ◌^◌, ◌⊎◌, ◌||◌, not, none, Bool-cases, ◌≡◌, refl, sym, ap, subst, ◌∙◌, inl, inr,
  some, List, [], ◌∷◌, ◌++◌, append-nil, append_assoc, arith, ℤ, length, length-take,
}
use test_libuv.Event.{UvEvent}
use test_libuv.Looper.{push_all, Looper, push_event, handle_all}
use test_libuv.Looper
use test_libuv.Looper.Queue.{push_all-queue}
use test_libuv.TcpClient.{TcpClient, Effect, send, is_connected}
use test_libuv.TcpClient.Connect.{send_as_int_lem, write_event, send-send_as_int}
use test_libuv.TcpClient.Outbox.{
  pushed, payload, pending, FitsIn, AllFit, System, accepts, takes, sent, woken, Step, sends, wakes,
  changes, Reach, here, next, quiet,
}
use test_libuv.TcpClient.Outbox.Handle.{handle_all-pending}

-- What was accepted is what was written and then what waits.
pub record IsInOrder (s : System) : Type 0 where
  pub no_loss : s.accepted ≡ s.wrote ++ pending s.looper.event_queue
  pub fits : AllFit s.looper.event_queue

pending-append : (xs ys : List UvEvent) → pending (xs ++ ys) ≡ pending xs ++ pending ys
unfolding pending
pending-append [] ys = refl
pending-append (x ∷ xs) ys =
    ap (◌++◌ (payload x.type x.buff)) (pending-append xs ys)
    ∙ sym (append_assoc (payload x.type x.buff) (pending xs) (pending ys))

AllFit-append : (xs ys : List UvEvent) → AllFit xs → AllFit ys → AllFit (xs ++ ys)
unfolding AllFit
AllFit-append [] ys h k = k
AllFit-append (x ∷ xs) ys (h, hs) k = (h, AllFit-append xs ys hs k)

-- More events behind those that wait.
push_all-IsInOrder :
    (s : System) (c : TcpClient) (es : List UvEvent) (more : List (List ℕ))
    → AllFit es
    → pending es ≡ more
    → IsInOrder s
    → IsInOrder
        (record s { client = c; looper = push_all es s.looper; accepted = s.accepted ++ more })
push_all-IsInOrder s c es more f e o = record {
  no_loss =
      ap (λ l. l ++ more) o.no_loss
      ∙ append_assoc s.wrote (pending s.looper.event_queue) more
      ∙ ap (◌++◌ s.wrote) (
          ap (◌++◌ (pending s.looper.event_queue)) (sym e)
          ∙ sym (pending-append s.looper.event_queue es)
          ∙ ap pending (sym (push_all-queue es s.looper)));
  fits =
      subst AllFit (sym (push_all-queue es s.looper))
        (AllFit-append s.looper.event_queue es o.fits f);
}

-- A wake-up never faults, and writes all that waits.
woken_lem :
    (addr_code connect_code : UvEvent → ℤ) (s : System)
    → IsInOrder s
    → (t : System) × (woken addr_code connect_code s ≡ some t)
      × (t.accepted ≡ s.accepted)
      × (t.wrote ≡ s.accepted)
      × (t.looper.event_queue ≡ [])
unfolding woken Looper.do_event
woken_lem addr_code connect_code s o =
    let (c, all) =
      handle_all-pending addr_code connect_code s.looper.event_queue s.client s.wrote o.fits in
    (
      record s {
        client = c;
        looper = record s.looper { event_queue = [] };
        wrote = s.wrote ++ pending s.looper.event_queue;
      },
      rw (woken, all) refl,
      refl,
      sym o.no_loss,
      refl,
    )

-- What `Send` pushes carries the bytes that it accepts, or their number is no `int`.
send-pushed :
    (bytes : List ℕ) (size : ℕ) (c : TcpClient)
    → size ≤ length bytes
    → ((n : ℕ) × (es : List Effect) × (send bytes size c ≡ some (n, (c, es)))
        × (pending (pushed es) ≡ accepts (takes c) n bytes)
        × AllFit (pushed es))
      ⊎ (send bytes size c ≡ none)
unfolding pending pushed accepts AllFit FitsIn payload
send-pushed bytes size c fits =
    elim (Bool-cases (c.is_wait_closed || not (is_connected c.status))) [
      | inl t ↦ inl (0, [], unfold send in rw (t) refl, unfold takes in rw (t) refl, tt)
      | inr t ↦ elim (Bool-cases c.looper) [
        | inr off ↦
            inl (0, [], unfold send in rw (t, off) refl, unfold takes in rw (t, off) refl, tt)
        | inl on ↦ elim (send_as_int_lem bytes (size % 2 ^ 32) c (omega arith)) [
          | inl e ↦ inl (
            size % 2 ^ 32,
            write_event bytes (size % 2 ^ 32) c ∷ [],
            send-send_as_int bytes size c t on ∙ e,
            unfold takes in rw (t, on) refl,
            (omega (arith, length-take (size % 2 ^ 32) bytes), tt),
          )
          | inr e ↦ inr (send-send_as_int bytes size c t on ∙ e)
        ]
      ]
    ]

some_eq {ℓ} : {A : Type ℓ} {x y : A} → some x ≡ some y → x ≡ y
some_eq e = cc

Step-IsInOrder : {s t : System} → Step s t → IsInOrder s → IsInOrder t
unfolding sent AllFit pending
Step-IsInOrder {s} (sends bytes size fits e) o = elim (send-pushed bytes size s.client fits) [
  | inl (n, es, answered, carried, f) ↦
      subst IsInOrder (some_eq (sym (rw (answered) refl) ∙ e))
        (push_all-IsInOrder s s.client (pushed es) (accepts (takes s.client) n bytes) f carried o)
  | inr failed ↦ absurd (ground (arith, rw (failed) at e))
]
Step-IsInOrder {s} (wakes addr_code connect_code e) o =
    let (t, ran, same, all, drained) = woken_lem addr_code connect_code s o in
    subst IsInOrder (some_eq (sym ran ∙ e)) (record {
      no_loss =
          same ∙ sym all ∙ sym (append-nil t.wrote) ∙ ap (λ q. t.wrote ++ pending q) (sym drained);
      fits = subst AllFit (sym drained) tt;
    })
Step-IsInOrder {s} (changes c es f e) o =
    subst (λ l. IsInOrder (record s { client = c; looper = push_all es s.looper; accepted = l }))
      (append-nil s.accepted) (push_all-IsInOrder s c es [] f e o)

Reach-IsInOrder : (c : TcpClient) (l : Looper) {s : System} → Reach (quiet c l) s → IsInOrder s
unfolding pending AllFit
Reach-IsInOrder c l here = record { no_loss = refl; fits = tt }
Reach-IsInOrder c l (next r st) = Step-IsInOrder st (Reach-IsInOrder c l r)

-- However threads send, any number of bytes and also none, and call other methods, the loop wakes
-- and libuv calls back, from an empty queue on, where a `Send` has accepted the bytes that it says
-- if the object is attached and connected and no close is awaited, and has not faulted on a size
-- that is negative as an `int`: what was handed to `uv_write` is, message by message, a first part
-- of what `Send` has accepted; the rest waits in the queue, in order; and one wake-up, whatever
-- libuv answers to it, does not fault and hands over all of it.
pub Reach-sent_in_order :
    (c : TcpClient) (l : Looper) {s : System} (addr_code connect_code : UvEvent → ℤ)
    → Reach (quiet c l) s
    → (s.accepted ≡ s.wrote ++ pending s.looper.event_queue)
      × ((t : System) × (woken addr_code connect_code s ≡ some t)
          × (t.wrote ≡ s.accepted)
          × (t.looper.event_queue ≡ []))
Reach-sent_in_order c l {s} addr_code connect_code r =
    let o = Reach-IsInOrder c l r in
    let (t, ran, same, all, drained) = woken_lem addr_code connect_code s o in
    (o.no_loss, (t, ran, all, drained))
