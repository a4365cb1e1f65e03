-- ===== src/Blocks/Owned.antt =====
-- Every block is freed once, by the handling of its event or the callback of its write.
use test_libuv.Common.{
  ℕ, ◌+◌, ◌≡◌, refl, Bool, Option, some, List, [], ◌∷◌, ◌++◌, ◌>>=◌, arith, count, Bool-cases, ap,
  ◌∙◌, is_zero, ℤ, inl, inr,
}
use test_libuv.Event.{UvEventType}
use test_libuv.Udp.{is_write}
use test_libuv.Blocks.{
  EventBlock, RequestBlock, create_uv_event, free_uv_event, alloc_write_param, System, push,
  sendinl, do_event, handle_all, wake, after_send,
}
use test_libuv.Blocks.Free.{
  in_event, in_events, in_requests, in_events-append, in_requests-append, IsFresh,
  free_uv_event_lem, free_write_param_lem, Without-IsFresh, create_uv_event_lem,
  alloc_write_param_lem,
}

-- Each block stands in one event or request of the system, or in what is held beside it.
pub record Owns (held : ℕ → ℕ) (s : System) : Type 0 where
  pub fresh : IsFresh s.heap
  pub owner :
      (x : ℕ) → count x s.heap.live ≡ held x + (in_events x s.event_queue + in_requests x s.writing)

pub push-Owns :
    (held : ℕ → ℕ) (type : UvEventType) (has_bytes : Bool) (s : System)
    → Owns held s
    → Owns held (push type has_bytes s)
unfolding push in_events
push-Owns held type has_bytes s o =
    let (f, c) = create_uv_event_lem type has_bytes s.heap o.fresh in
    record {
      fresh = f;
      owner = λ x. omega (
        arith,
        o.owner x,
        c x,
        in_events-append x s.event_queue ((create_uv_event type has_bytes s.heap).0 ∷ []),
      );
    }

-- A call that returns leaves the queue alone and what is held to `held`.
abbrev Returns : (ℕ → ℕ) → System → Option System → Type 0
Returns held s o = (s' : System) × (o ≡ some s') × Owns held s' × (s'.event_queue ≡ s.event_queue)

sendinl-Owns :
    (held : ℕ → ℕ) (code : ℤ) (s : System) → Owns held s → Returns held s (sendinl code s)
unfolding sendinl in_requests
sendinl-Owns held code s o =
    let (r, h) = alloc_write_param s.heap in
    let (f, c) = alloc_write_param_lem s.heap o.fresh in
    elim (Bool-cases (is_zero code)) [
      | inl z ↦ (
        record s { heap = h; writing = s.writing ++ (r ∷ []) },
        rw (z) refl,
        record {
          fresh = f;
          owner = λ x. omega (arith, o.owner x, c x, in_requests-append x s.writing (r ∷ []));
        },
        refl,
      )
      | inr z ↦
          let (h1, e1, n1, c1) = free_write_param_lem r h (λ x. omega (arith, c x)) in
          (
            record s { heap = h1 },
            rw (z, e1) refl,
            record {
              fresh = Without-IsFresh _ h h1 n1 c1 f;
              owner = λ x. omega (arith, o.owner x, c x, c1 x);
            },
            refl,
          )
    ]

-- The end of `DoEvent`.
freed-Owns :
    (held : ℕ → ℕ) (e : EventBlock) (s : System)
    → Owns (λ x. in_event x e + held x) s
    → Returns held s (free_uv_event e s.heap >>= λ h. some (record s { heap = h }))
freed-Owns held e s o =
    let (h, e1, n, c) = free_uv_event_lem e s.heap (λ x. omega (arith, o.owner x)) in
    (
      record s { heap = h },
      rw (e1) refl,
      record {
        fresh = Without-IsFresh _ s.heap h n c o.fresh;
        owner = λ x. omega (arith, o.owner x, c x);
      },
      refl,
    )

do_event-Owns :
    (held : ℕ → ℕ) (code : ℤ) (e : EventBlock) (s : System)
    → Owns (λ x. in_event x e + held x) s
    → Returns held s (do_event code e s)
unfolding do_event
do_event-Owns held code e s o = elim (Bool-cases (is_write e.type)) [
  | inl w ↦
      let (s1, e1, o1, q1) = sendinl-Owns (λ x. in_event x e + held x) code s o in
      let (s2, e2, o2, q2) = freed-Owns held e s1 o1 in (s2, rw (w, e1) e2, o2, q2 ∙ q1)
  | inr w ↦ let (s2, e2, o2, q2) = freed-Owns held e s o in (s2, rw (w) e2, o2, q2)
]

handle_all-Owns :
    (code : ℕ → ℤ) (es : List EventBlock) (s : System)
    → Owns (λ x. in_events x es) s
    → Returns (λ x. 0) s (handle_all code es s)
unfolding handle_all in_events
handle_all-Owns code [] s o = (s, refl, o, refl)
handle_all-Owns code (e ∷ es) s o =
    let (s1, e1, o1, q1) = do_event-Owns (λ x. in_events x es) (code e.address) e s o in
    let (s2, e2, o2, q2) = handle_all-Owns code es s1 o1 in (s2, rw (e1, e2) refl, o2, q2 ∙ q1)

pub wake-Owns :
    (code : ℕ → ℤ) (s : System)
    → Owns (λ x. 0) s
    → (s' : System) × (wake code s ≡ some s') × Owns (λ x. 0) s' × (s'.event_queue ≡ [])
unfolding wake in_events
wake-Owns code s o =
    handle_all-Owns code s.event_queue (record s { event_queue = [] })
      (record { fresh = o.fresh; owner = λ x. omega (arith, o.owner x) })

pub after_send-Owns :
    (r : RequestBlock) (ps rs : List RequestBlock) (s : System)
    → s.writing ≡ ps ++ (r ∷ rs)
    → Owns (λ x. 0) s
    → (s' : System) × (after_send r (ps ++ rs) s ≡ some s')
      × Owns (λ x. 0) s'
      × (s'.writing ≡ ps ++ rs)
unfolding after_send in_requests
after_send-Owns r ps rs s e o =
    let there : (x : ℕ) → in_requests x s.writing ≡ in_requests x ps + in_requests x (r ∷ rs) =
      λ x. ap (in_requests x) e ∙ in_requests-append x ps (r ∷ rs) in
    let (h, e1, n, c) = free_write_param_lem r s.heap (λ x. omega (arith, o.owner x, there x)) in
    (
      record s { heap = h; writing = ps ++ rs },
      rw (e1) refl,
      record {
        fresh = Without-IsFresh _ s.heap h n c o.fresh;
        owner = λ x. omega (arith, o.owner x, there x, c x, in_requests-append x ps rs);
      },
      refl,
    )
