-- ===== src/TcpServer/Writes.antt =====
-- `CTcpServer`: the pool of write requests and the bytes that `sendinl` puts into one.
use test_libuv.Common.{
  ℕ, ◌≤◌, ◌≡◌, ◌∙◌, refl, Bool, Option, some, List, [], ◌∷◌, ◌++◌, ltb, arith, ℤ, length, take,
  length-append, if_elim, Bool-cases, inl, inr, is_zero, copy_lem, overwrite, length-overwrite,
  length-take, take-append_len, ap, subst, sym,
}
use test_libuv.PacketSync.{Allocator, pack_buffer_size}
use test_libuv.TcpServer.{SessionCtx, WriteParam, TcpServer, Effect, writes, ErrMsg, send_error}
use test_libuv.TcpServer.Sending.{take_from_pool, widen, fill, send_request, sendinl, after_send}

-- A request's length is never beyond its block.
abbrev pub IsValid : WriteParam → Type 0
IsValid p = p.len ≤ length p.base

unfoldable pub AllValid : List WriteParam → Type 0
AllValid [] = Unit
AllValid (p ∷ ps) = IsValid p × AllValid ps

-- The pool holds valid requests, at most 21 of them.
unfoldable pub IsPool : List WriteParam → Type 0
IsPool ps = AllValid ps × (length ps ≤ 21)

-- The request carries these bytes.
abbrev pub Carries : WriteParam → List ℕ → Type 0
Carries p bytes = IsValid p × (take p.len p.base ≡ bytes)

append-AllValid :
    (ps : List WriteParam) (p : WriteParam) → AllValid ps → IsValid p → AllValid (ps ++ (p ∷ []))
unfolding AllValid
append-AllValid [] p h k = (k, tt)
append-AllValid (q ∷ ps) p (h, r) k = (h, append-AllValid ps p r k)

widen_lem :
    (a : Allocator) (p : WriteParam) (size : ℕ) → IsValid p → size ≤ length (widen a p size).base
unfolding widen
widen_lem a p size h = ground (arith, a.length-realloc p.base size)

-- Filling a request copies inside both blocks, also when it has to grow first.
fill_lem :
    (a : Allocator) (p : WriteParam) (buff : List ℕ) (size : ℕ)
    → IsValid p
    → size ≤ length buff
    → (p' : WriteParam) × (fill a p buff size ≡ some p') × Carries p' (take size buff)
unfolding fill
fill_lem a p buff size h l =
    let base = (widen a p size).base in
    let w = widen_lem a p size h in
    let taken = length-take size buff in
    (
      record { base = overwrite base 0 (take size buff); len = size },
      rw (copy_lem base 0 buff 0 size (omega arith) (omega arith)),
      (
        omega (arith, taken, length-overwrite base 0 (take size buff) (omega (arith, taken))),
        take-append_len size (take size buff) _ (omega (arith, taken)),
      ),
    )

-- What `sendinl` does to the server: the pool and perhaps the error.
abbrev pub with_pool : List WriteParam → ErrMsg → TcpServer → TcpServer
with_pool ps e s = record s { writeparams = ps; errmsg = e }

-- The first request is valid, and the others are a pool with room for one.
take_from_pool_lem :
    (a : Allocator) (ps : List WriteParam) (s : TcpServer)
    → s.writeparams ≡ ps
    → IsPool ps
    → let (p, s1) = take_from_pool a ps s in
      IsValid p
      × ((qs : List WriteParam) × (s1 ≡ with_pool qs s.errmsg s) × AllValid qs × (length qs ≤ 20))
unfolding take_from_pool IsPool AllValid
take_from_pool_lem a [] s e h = (
  omega (arith, a.length-malloc pack_buffer_size),
  ([], ap (λ ps. with_pool ps s.errmsg s) e, tt, omega arith),
)
take_from_pool_lem a (p ∷ ps) s e ((h, r), l) = (h, (ps, refl, r, omega arith))

-- A result of `sendinl` on a server like `s`: the message went to `uv_write` once and the pool is
-- a pool.
abbrev pub Sent :
    ℤ → List ℕ → SessionCtx → TcpServer → Option (Bool × TcpServer × List Effect) → Type 0
Sent code message ctx s o =
    (p : WriteParam) × (ps : List WriteParam) × (e : ErrMsg) × (o
      ≡ some (is_zero code, with_pool ps e s, writes ctx.address p ∷ []))
    × Carries p message
    × IsPool ps

send_request_lem :
    (a : Allocator) (code : ℤ) (buff : List ℕ) (size : ℕ) (ctx : SessionCtx) (p : WriteParam)
    (s : TcpServer)
    → IsValid p
    → AllValid s.writeparams
    → length s.writeparams ≤ 20
    → size ≤ length buff
    → Sent code (take size buff) ctx s (send_request a code buff size ctx p s)
unfolding send_request IsPool
send_request_lem a code buff size ctx p s v h k l =
    let (p', e, (w, c)) = fill_lem a p buff size v l in
    elim (Bool-cases (is_zero code)) [
      | inl z ↦ (p', s.writeparams, s.errmsg, rw (e, z), (w, c), (h, omega arith))
      | inr z ↦ (
        p',
        s.writeparams ++ (p' ∷ []),
        send_error,
        rw (e, z),
        (w, c),
        (
          append-AllValid s.writeparams p' h w,
          omega (arith, length-append s.writeparams (p' ∷ [])),
        ),
      )
    ]

-- `sendinl` copies inside its blocks, whatever stands in the pool, hands exactly the message to
-- `uv_write` once, says whether that took it, and leaves a pool of valid requests, at most 21.
pub sendinl_lem :
    (a : Allocator) (code : ℤ) (buff : List ℕ) (size : ℕ) (ctx : SessionCtx) (s : TcpServer)
    → IsPool s.writeparams
    → size ≤ length buff
    → Sent code (take size buff) ctx s (sendinl a code buff size ctx s)
unfolding sendinl
sendinl_lem a code buff size ctx s h l =
    let (v, (qs, e, k, r)) = take_from_pool_lem a s.writeparams s refl h in
    let (p, s1) = take_from_pool a s.writeparams s in
    let (p', ps, err, sent, c, pool) =
      send_request_lem a code buff size ctx p s1 v (subst (λ x. AllValid x.writeparams) (sym e) k)
        (subst (λ x. length x.writeparams ≤ 20) (sym e) r) l in
    (
      p',
      ps,
      err,
      sent ∙ ap (λ x. some (is_zero code, with_pool ps err x, writes ctx.address p' ∷ [])) e,
      c,
      pool,
    )

-- The request that libuv gives back keeps the pool a pool.
pub after_send-IsPool :
    (p : WriteParam) (s : TcpServer)
    → IsValid p
    → IsPool s.writeparams
    → IsPool (after_send p s).writeparams
unfolding after_send IsPool
after_send-IsPool p s v (h, l) =
    if_elim (λ (s' : TcpServer). IsPool s'.writeparams) (ltb 20 (length s.writeparams))
      (λ t. (h, l))
      (λ t. (
        append-AllValid s.writeparams p h v,
        ground (arith, t, length-append s.writeparams (p ∷ [])),
      ))
