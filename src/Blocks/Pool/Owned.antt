-- ===== src/Blocks/Pool/Owned.antt =====
-- Every request of the server stands in the pool or is under way, in one place.
use test_libuv.Common.{
  ℕ, suc, ◌+◌, ◌≤◌, ◌≡◌, ◌∙◌, refl, ap, Bool, true, false, some, List, [], ◌∷◌, ◌++◌, ltb, lt→ltb,
  arith, hit, count, length, length-append, Bool-cases, inl, inr, is_zero, ℤ, Option,
}
use test_libuv.Blocks.{Heap}
use test_libuv.Blocks.Free.{
  in_request, IsFresh, Without, free_lem, free_write_param_lem, Without-IsFresh, malloc_lem,
  alloc_write_param_lem,
}
use test_libuv.Blocks.Pool.{
  PoolRequest, PoolSystem, is_live, realloc, take_request, widen_request, sendinl, after_send,
  free_all, destroy,
}

-- How often a block stands in these requests.
unfoldable pub in_pool : ℕ → List PoolRequest → ℕ
in_pool x [] = 0
in_pool x (p ∷ ps) = in_request x p.block + in_pool x ps

pub in_pool-append :
    (x : ℕ) (ps qs : List PoolRequest) → in_pool x (ps ++ qs) ≡ in_pool x ps + in_pool x qs
unfolding in_pool
in_pool-append x [] qs = omega arith
in_pool-append x (p ∷ ps) qs = omega (arith, in_pool-append x ps qs)

-- Each block stands in one request of the system, or in what is held beside it, and the pool has at
-- most `n`.
pub record Owns (n : ℕ) (held : ℕ → ℕ) (s : PoolSystem) : Type 0 where
  pub fresh : IsFresh s.heap
  pub owner : (x : ℕ) → count x s.heap.live ≡ held x + (in_pool x s.available + in_pool x s.writing)
  pub bounded : length s.available ≤ n

realloc_lem :
    (moves : Bool) (x : ℕ) (h : Heap)
    → IsFresh h
    → 1 ≤ count x h.live
    → (y : ℕ) × (h' : Heap) × (realloc moves x h ≡ some (y, h'))
      × IsFresh h'
      × ((z : ℕ) → count z h.live + hit z y ≡ hit z x + count z h'.live)
unfolding realloc
realloc_lem false x h f l = (x, h, rw (lt→ltb 0 (count x h.live) l) refl, f, λ z. omega arith)
realloc_lem true x h f l =
    let (f1, c1) = malloc_lem h f in
    let h1 : Heap = record { next = suc h.next; live = h.next ∷ h.live } in
    let (h2, e, n, c) = free_lem x h1 (omega (arith, c1 x)) in
    (
      h.next,
      h2,
      rw (lt→ltb 0 (count x h.live) l, e) refl,
      Without-IsFresh _ h1 h2 n c f1,
      λ z. omega (arith, c1 z, c z),
    )

take_request_lem :
    (held : ℕ → ℕ) (ps : List PoolRequest) (s : PoolSystem)
    → s.available ≡ ps
    → Owns 21 held s
    → let (p, s1) = take_request ps s in Owns 20 (λ x. in_request x p.block + held x) s1
unfolding take_request in_pool
take_request_lem held [] s e o =
    let (f, c) = alloc_write_param_lem s.heap o.fresh in
    record {
      fresh = f;
      owner = λ x. omega (arith, c x, o.owner x);
      bounded = omega (arith, ap length e);
    }
take_request_lem held (p ∷ ps) s e o = record {
  fresh = o.fresh;
  owner = λ x. omega (arith, o.owner x, ap (in_pool x) e);
  bounded = omega (arith, o.bounded, ap length e);
}

widen_request_lem :
    (n : ℕ) (held : ℕ → ℕ) (moves : Bool) (size : ℕ) (p : PoolRequest) (s : PoolSystem)
    → Owns n (λ x. in_request x p.block + held x) s
    → (p' : PoolRequest) × (s' : PoolSystem) × (widen_request moves size p s ≡ some (p', s'))
      × Owns n (λ x. in_request x p'.block + held x) s'
unfolding widen_request
widen_request_lem n held moves size p s o = elim (Bool-cases (ltb p.len size)) [
  | inl t ↦
      let (y, h, e, f, c) =
        realloc_lem moves p.block.base s.heap o.fresh (ground (arith, o.owner p.block.base)) in
      (
        record { block = record { address = p.block.address; base = y }; len = size },
        record s { heap = h },
        rw (t, e) refl,
        record { fresh = f; owner = λ x. omega (arith, o.owner x, c x); bounded = o.bounded },
      )
  | inr t ↦ (p, s, rw (t) refl, o)
]

is_live_lem : (x : ℕ) (h : Heap) → 1 ≤ count x h.live → is_live x h ≡ true
is_live_lem x h l = lt→ltb 0 (count x h.live) l

-- A call that returns.
abbrev pub Returns : (ℕ → ℕ) → Option PoolSystem → Type 0
Returns held o = (s' : PoolSystem) × (o ≡ some s') × Owns 21 held s'

pub sendinl-Owns :
    (held : ℕ → ℕ) (moves : Bool) (code : ℤ) (size : ℕ) (s : PoolSystem)
    → Owns 21 held s
    → Returns held (sendinl moves code size s)
unfolding sendinl in_pool
sendinl-Owns held moves code size s o =
    let (p, s1) = take_request s.available s in
    let (p', s2, e, o2) =
      widen_request_lem 20 held moves size p s1 (take_request_lem held s.available s refl o) in
    let sent : PoolRequest = record { block = p'.block; len = size } in
    let base = is_live_lem p'.block.base s2.heap (ground (arith, o2.owner p'.block.base)) in
    let address =
      is_live_lem p'.block.address s2.heap (ground (arith, o2.owner p'.block.address)) in
    elim (Bool-cases (is_zero code)) [
      | inl z ↦ (
        record s2 { writing = s2.writing ++ (sent ∷ []) },
        rw (e, base, address, z) refl,
        record {
          fresh = o2.fresh;
          owner = λ x. omega (arith, o2.owner x, in_pool-append x s2.writing (sent ∷ []));
          bounded = omega (arith, o2.bounded);
        },
      )
      | inr z ↦ (
        record s2 { available = s2.available ++ (sent ∷ []) },
        rw (e, base, address, z) refl,
        record {
          fresh = o2.fresh;
          owner = λ x. omega (arith, o2.owner x, in_pool-append x s2.available (sent ∷ []));
          bounded = omega (arith, o2.bounded, length-append s2.available (sent ∷ []));
        },
      )
    ]

pub after_send-Owns :
    (held : ℕ → ℕ) (p : PoolRequest) (ps rs : List PoolRequest) (s : PoolSystem)
    → s.writing ≡ ps ++ (p ∷ rs)
    → Owns 21 held s
    → (s' : PoolSystem) × (after_send p (ps ++ rs) s ≡ some s')
      × Owns 21 held s'
      × (s'.writing ≡ ps ++ rs)
unfolding after_send in_pool
after_send-Owns held p ps rs s e o =
    let there : (x : ℕ) → in_pool x s.writing ≡ in_pool x ps + in_pool x (p ∷ rs) =
      λ x. ap (in_pool x) e ∙ in_pool-append x ps (p ∷ rs) in
    elim (Bool-cases (ltb 20 (length s.available))) [
      | inl t ↦
          let (h, e1, n, c) =
            free_write_param_lem p.block s.heap (λ x. omega (arith, o.owner x, there x)) in
          (
            record s { heap = h; writing = ps ++ rs },
            rw (t, e1) refl,
            record {
              fresh = Without-IsFresh _ s.heap h n c o.fresh;
              owner = λ x. omega (arith, o.owner x, there x, c x, in_pool-append x ps rs);
              bounded = o.bounded;
            },
            refl,
          )
      | inr t ↦ (
        record s { available = s.available ++ (p ∷ []); writing = ps ++ rs },
        rw (t) refl,
        record {
          fresh = o.fresh;
          owner = λ x. omega (
            arith,
            o.owner x,
            there x,
            in_pool-append x s.available (p ∷ []),
            in_pool-append x ps rs,
          );
          bounded = ground (arith, t, length-append s.available (p ∷ []));
        },
        refl,
      )
    ]

free_all_lem :
    (ps : List PoolRequest) (h : Heap)
    → ((z : ℕ) → in_pool z ps ≤ count z h.live)
    → Without (λ z. in_pool z ps) h (free_all ps h)
unfolding free_all in_pool
free_all_lem [] h l = (h, refl, refl, λ z. omega arith)
free_all_lem (p ∷ ps) h l =
    let (h1, e1, n1, c1) = free_write_param_lem p.block h (λ z. omega (arith, l z)) in
    let (h2, e2, n2, c2) = free_all_lem ps h1 (λ z. omega (arith, l z, c1 z)) in
    (h2, rw (e1, e2) refl, omega arith, λ z. omega (arith, c1 z, c2 z))

-- The destructor frees the pool, and what is left is held or under way.
pub destroy-Owns :
    (held : ℕ → ℕ) (s : PoolSystem)
    → Owns 21 held s
    → (s' : PoolSystem) × (destroy s ≡ some s')
      × ((x : ℕ) → count x s'.heap.live ≡ held x + in_pool x s.writing)
unfolding destroy
destroy-Owns held s o =
    let (h, e, n, c) = free_all_lem s.available s.heap (λ z. omega (arith, o.owner z)) in
    (record s { heap = h; available = [] }, rw (e) refl, λ x. omega (arith, o.owner x, c x))
