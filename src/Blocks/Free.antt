-- ===== src/Blocks/Free.antt =====
-- What `malloc` and `free` of an event or a request change in the heap.
use test_libuv.Common.{
  ℕ, ◌+◌, ◌≤◌, ◌≡◌, refl, Bool, true, false, Option, none, some, List, [], ◌∷◌, ◌++◌, arith, hit,
  count, take_out_lem, ltb, Option-cases, if◌then◌else◌, inl, inr,
}
use test_libuv.Event.{UvEventType}
use test_libuv.Blocks.{
  Heap, malloc, free, EventBlock, RequestBlock, create_uv_event, free_uv_event, alloc_write_param,
  free_write_param,
}

-- How often a block stands in an event, a request, and in lists of these.
abbrev pub in_event : ℕ → EventBlock → ℕ
in_event x e = hit x e.address + elim e.buff [ none ↦ 0 | some b ↦ hit x b ]

abbrev pub in_request : ℕ → RequestBlock → ℕ
in_request x r = hit x r.address + hit x r.base

unfoldable pub in_events : ℕ → List EventBlock → ℕ
in_events x [] = 0
in_events x (e ∷ es) = in_event x e + in_events x es

unfoldable pub in_requests : ℕ → List RequestBlock → ℕ
in_requests x [] = 0
in_requests x (r ∷ rs) = in_request x r + in_requests x rs

pub in_events-append :
    (x : ℕ) (ds es : List EventBlock) → in_events x (ds ++ es) ≡ in_events x ds + in_events x es
unfolding in_events
in_events-append x [] es = omega arith
in_events-append x (d ∷ ds) es = omega (arith, in_events-append x ds es)

pub in_requests-append :
    (x : ℕ) (ps rs : List RequestBlock)
    → in_requests x (ps ++ rs) ≡ in_requests x ps + in_requests x rs
unfolding in_requests
in_requests-append x [] rs = omega arith
in_requests-append x (p ∷ ps) rs = omega (arith, in_requests-append x ps rs)

-- Only addresses that were given out are allocated, and each once.
abbrev pub IsFresh : Heap → Type 0
IsFresh h = (x : ℕ) → count x h.live ≤ (if ltb x h.next then 1 else 0)

-- A heap without some blocks.
abbrev pub Without : (ℕ → ℕ) → Heap → Option Heap → Type 0
Without freed h o =
    (h' : Heap) × (o ≡ some h')
    × (h'.next ≡ h.next)
    × ((z : ℕ) → count z h.live ≡ freed z + count z h'.live)

pub free_lem : (x : ℕ) (h : Heap) → 1 ≤ count x h.live → Without (λ z. hit z x) h (free x h)
unfolding free
free_lem x h l =
    let (r, e, same) = take_out_lem x h.live l in (record h { live = r }, rw (e) refl, refl, same)

pub free_uv_event_lem :
    (e : EventBlock) (h : Heap)
    → ((z : ℕ) → in_event z e ≤ count z h.live)
    → Without (λ z. in_event z e) h (free_uv_event e h)
unfolding free_uv_event
free_uv_event_lem e h l = elim (Option-cases e.buff) [
  | inl f ↦
      let (h1, e1, n1, c1) = free_lem e.address h (ground (arith, l e.address)) in
      (h1, rw (f, e1) refl, n1, λ z. ground (arith, f, c1 z))
  | inr (b, f) ↦
      let (h1, e1, n1, c1) = free_lem b h (ground (arith, l b, f)) in
      let (h2, e2, n2, c2) = free_lem e.address h1 (ground (arith, l e.address, c1 e.address, f)) in
      (h2, rw (f, e1, e2) refl, omega arith, λ z. ground (arith, f, c1 z, c2 z))
]

pub free_write_param_lem :
    (r : RequestBlock) (h : Heap)
    → ((z : ℕ) → in_request z r ≤ count z h.live)
    → Without (λ z. in_request z r) h (free_write_param r h)
unfolding free_write_param
free_write_param_lem r h l =
    let (h1, e1, n1, c1) = free_lem r.base h (ground (arith, l r.base)) in
    let (h2, e2, n2, c2) = free_lem r.address h1 (ground (arith, l r.address, c1 r.address)) in
    (h2, rw (e1, e2) refl, omega arith, λ z. omega (arith, c1 z, c2 z))

pub Without-IsFresh :
    (freed : ℕ → ℕ) (h h' : Heap)
    → h'.next ≡ h.next
    → ((z : ℕ) → count z h.live ≡ freed z + count z h'.live)
    → IsFresh h
    → IsFresh h'
Without-IsFresh freed h h' n c f = λ x. ground (arith, n, c x, f x)

-- A new address does not stand in a fresh heap yet.
pub malloc_lem :
    (h : Heap)
    → IsFresh h
    → let (x, h1) = malloc h in IsFresh h1 × ((z : ℕ) → count z h1.live ≡ hit z x + count z h.live)
unfolding count
malloc_lem h f = (λ z. ground (arith, f z), λ z. refl)

pub create_uv_event_lem :
    (type : UvEventType) (has_bytes : Bool) (h : Heap)
    → IsFresh h
    → let (e, h1) = create_uv_event type has_bytes h in
      IsFresh h1 × ((z : ℕ) → count z h1.live ≡ in_event z e + count z h.live)
unfolding create_uv_event
create_uv_event_lem type true h f =
    let (f1, c1) = malloc_lem h f in
    let (f2, c2) = malloc_lem (malloc h).1 f1 in (f2, λ z. omega (arith, c1 z, c2 z))
create_uv_event_lem type false h f = let (f1, c1) = malloc_lem h f in (f1, λ z. omega (arith, c1 z))

pub alloc_write_param_lem :
    (h : Heap)
    → IsFresh h
    → let (r, h1) = alloc_write_param h in
      IsFresh h1 × ((z : ℕ) → count z h1.live ≡ in_request z r + count z h.live)
unfolding alloc_write_param
alloc_write_param_lem h f =
    let (f1, c1) = malloc_lem h f in
    let (f2, c2) = malloc_lem (malloc h).1 f1 in (f2, λ z. omega (arith, c1 z, c2 z))
