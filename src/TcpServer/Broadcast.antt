-- ===== src/TcpServer/Broadcast.antt =====
-- `CTcpServer`: whom a broadcast reaches.
use test_libuv.Common.{
  take_out, ℕ, suc, ◌≤◌, ◌≡◌, ◌≢◌, refl, Bool, true, false, ◌||◌, none, some, List, [], ◌∷◌, ◌==◌,
  if◌then◌else◌, arith, ℤ, length, take, Option-cases, inl, inr,
}
use test_libuv.PacketSync.{Allocator}
use test_libuv.TcpServer.{SessionCtx, Session, WriteParam, TcpServer, Effect, ErrMsg, writes}
use test_libuv.TcpServer.Maps.{IsMap}
use test_libuv.TcpServer.Sending.{broadcast_loop, broadcastinl}
use test_libuv.TcpServer.Writes.{IsPool, with_pool, sendinl_lem, Carries}

unfoldable pub member : ℕ → List ℕ → Bool
member x [] = false
member x (y ∷ ys) = (x == y) || member x ys

-- The contexts of the sessions whose ids are not in the list, in the order of the ids.
unfoldable pub recipients : List ℕ → List (ℕ × Session) → List SessionCtx
unfolding member
recipients excluded [] = []
recipients excluded ((id, v) ∷ m) =
    let rest = recipients excluded m in if member id excluded then rest else v.ctx ∷ rest

-- The effects are one write to each of these contexts, in this order, of these bytes.
unfoldable pub Reaches : List ℕ → List SessionCtx → List Effect → Type 0
Reaches message [] es = es ≡ []
Reaches message (ctx ∷ ctxs) es =
    (p : WriteParam) × (more : List Effect) × (es ≡ writes ctx.address p ∷ more)
    × Carries p message
    × Reaches message ctxs more

take_out-none : (x : ℕ) (ys : List ℕ) → take_out x ys ≡ none → member x ys ≡ false
unfolding take_out member
take_out-none x [] h = refl
take_out-none x (y ∷ ys) h = elim (Option-cases (take_out x ys)) [
  | inl e ↦ ground (arith, take_out-none x ys e)
  | inr (r, e) ↦ ground arith
]

-- Taking an id out of the list changes nothing for the other ids.
take_out-some :
    (x : ℕ) (ys r : List ℕ)
    → take_out x ys ≡ some r
    → (member x ys ≡ true) × ((z : ℕ) → z ≢ x → member z r ≡ member z ys)
unfolding take_out member
take_out-some x [] r h = ground arith
take_out-some x (y ∷ ys) r h = elim (Option-cases (take_out x ys)) [
  | inl e ↦ (ground arith, λ z d. ground arith)
  | inr (r', e) ↦
      let (found, same) = take_out-some x ys r' e in (ground arith, λ z d. ground (arith, same z d))
]

-- Ids that are not in the map do not matter.
recipients_same :
    (lo hi : ℕ) (r ys : List ℕ) (m : List (ℕ × Session))
    → ((z : ℕ) → lo ≤ z → member z r ≡ member z ys)
    → IsMap lo hi m
    → recipients r m ≡ recipients ys m
unfolding recipients IsMap
recipients_same lo hi r ys [] same h = refl
recipients_same lo hi r ys ((id, v) ∷ m) same (h, i, k) =
    let rest = recipients_same (suc id) hi r ys m (λ z l. same z (omega arith)) k in
    rw (same id h, rest)

loop-Reaches :
    (a : Allocator) (code : ℕ → ℤ) (buff : List ℕ) (size lo hi : ℕ) (m : List (ℕ × Session))
    (excluded : List ℕ) (s : TcpServer)
    → IsMap lo hi m
    → IsPool s.writeparams
    → size ≤ length buff
    → (ps : List WriteParam) × (e : ErrMsg) × (es : List Effect) × (broadcast_loop a code buff size
          m excluded s
        ≡ some (with_pool ps e s, es))
      × Reaches (take size buff) (recipients excluded m) es
      × IsPool ps
unfolding broadcast_loop recipients Reaches IsMap
loop-Reaches a code buff size lo hi [] excluded s h k l =
    (s.writeparams, s.errmsg, [], refl, refl, k)
loop-Reaches a code buff size lo hi ((id, v) ∷ m) excluded s (h, i, r) k l =
    elim (Option-cases (take_out id excluded)) [
      | inl e ↦
          let (p, qs, err, sent, c, pool) =
            sendinl_lem a (code v.ctx.address) buff size v.ctx s k l in
          let (ps, err', es, ended, reached, pool') =
            loop-Reaches a code buff size (suc id) hi m excluded (with_pool qs err s) r pool l in
          (
            ps,
            err',
            writes v.ctx.address p ∷ es,
            rw (broadcast_loop, e, sent, ended),
            rw (take_out-none id excluded e) (p, es, refl, c, reached),
            pool',
          )
      | inr (r', e) ↦
          let (found, same) = take_out-some id excluded r' e in
          let (ps, err, es, ended, reached, pool) =
            loop-Reaches a code buff size (suc id) hi m r' s r k l in
          (
            ps,
            err,
            es,
            rw (broadcast_loop, e, ended),
            rw (found, ← recipients_same (suc id) hi r' excluded m (λ z b. same z (ground arith)) r)
                reached,
            pool,
          )
    ]

-- A broadcast on a server whose map is in order and whose pool is valid does not fault: each session
-- whose id is not in the list gets one write of exactly the message, in the order of the ids, and
-- no other does, however often an id stands in the list, and whichever writes libuv refuses.
-- Only the pool and the error change, and the pool stays one.
pub broadcastinl-Reaches :
    (a : Allocator) (code : ℕ → ℤ) (buff : List ℕ) (size : ℕ) (excluded : List ℕ) (s : TcpServer)
    → IsMap 1 (suc s.last_id) s.session_map
    → IsPool s.writeparams
    → size ≤ length buff
    → (ps : List WriteParam) × (e : ErrMsg) × (es : List Effect) × (broadcastinl a code buff size
          excluded s
        ≡ some (with_pool ps e s, es))
      × Reaches (take size buff) (recipients excluded s.session_map) es
      × IsPool ps
unfolding broadcastinl
broadcastinl-Reaches a code buff size excluded s h k l =
    loop-Reaches a code buff size 1 (suc s.last_id) s.session_map excluded s h k l
