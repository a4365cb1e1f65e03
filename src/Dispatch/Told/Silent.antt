-- ===== src/Dispatch/Told/Silent.antt =====
-- What tells the user of a server of no session.
use test_libuv.Common.{
  ℕ, suc, ◌+◌, ◌≡◌, ◌∙◌, refl, ap, Bool, List, [], ◌∷◌, ◌++◌, map, arith, ℤ, pos, negsuc, zero,
  if_elim, inl, inr,
}
use test_libuv.PacketSync.{Allocator, Outcome, done, fault, unfinished, on_recv_data}
use test_libuv.PacketSync.Receiver.{Outcome-cases}
use test_libuv.TcpServer.{SessionCtx, Session, Effect, calls_recv}
use test_libuv.TcpServer.Broadcast.{Reaches}
use test_libuv.TcpSession.{closeinl, after_recv, after_recv_data, close, push_plain}
use test_libuv.Dispatch.Told.{opened, ended}

pub opened-append : (x : ℕ) (es fs : List Effect) → opened x (es ++ fs) ≡ opened x es + opened x fs
opened-append x [] fs = omega arith
opened-append x (e ∷ es) fs = ground (arith, opened-append x es fs)

pub ended-append : (x : ℕ) (es fs : List Effect) → ended x (es ++ fs) ≡ ended x es + ended x fs
ended-append x [] fs = omega arith
ended-append x (e ∷ es) fs = ground (arith, ended-append x es fs)

-- Effects that tell the user of no session.
abbrev pub IsSilent : List Effect → Type 0
IsSilent es = (x : ℕ) → (opened x es ≡ 0) × (ended x es ≡ 0)

pub closeinl-IsSilent : (v : Session) → IsSilent (closeinl v).1
unfolding closeinl
closeinl-IsSilent v x = (ground arith, ground arith)

pub Reaches-IsSilent :
    (message : List ℕ) (ctxs : List SessionCtx) (es : List Effect)
    → Reaches message ctxs es
    → IsSilent es
unfolding Reaches
Reaches-IsSilent message [] es h x = (ground (arith, h), ground (arith, h))
Reaches-IsSilent message (ctx ∷ ctxs) es (p, more, e, c, r) x =
    let (o, n) = Reaches-IsSilent message ctxs more r x in (ap (opened x) e ∙ o, ap (ended x) e ∙ n)

map-IsSilent : (id : ℕ) (packs : List (List ℕ)) → IsSilent (map (λ pack. calls_recv pack id) packs)
map-IsSilent id [] x = (refl, refl)
map-IsSilent id (p ∷ ps) x = map-IsSilent id ps x

abbrev pub SilentDone : Outcome (Session × List Effect) → Type 0
SilentDone (done (v, es)) = IsSilent es
SilentDone fault = Unit
SilentDone unfinished = Unit

close-IsSilent : (v : Session) → IsSilent (close v)
unfolding close push_plain
close-IsSilent v x = (ground arith, ground arith)

recv_data-IsSilent :
    (a : Allocator) (fuel : ℕ) (set : Bool) (buf : List ℕ) (n : ℕ) (v : Session)
    → SilentDone (after_recv_data a fuel set buf n v)
unfolding after_recv_data
recv_data-IsSilent a fuel set buf n v =
    elim (Outcome-cases (on_recv_data a fuel v.ctx.packet buf n)) [
      | inl ((p, packs), e) ↦
          rw (e, after_recv_data)
            (if_elim IsSilent set (λ t. map-IsSilent v.ctx.client_id packs) (λ t x. (refl, refl)))
      | inr (inl e) ↦ rw (e, after_recv_data) tt
      | inr (inr e) ↦ rw (e, after_recv_data) tt
    ]

pub recv-IsSilent :
    (a : Allocator) (fuel : ℕ) (set : Bool) (buf : List ℕ) (nread : ℤ) (v : Session)
    → SilentDone (after_recv a fuel set buf nread v)
unfolding after_recv
recv-IsSilent a fuel set buf (negsuc n) v = close-IsSilent v
recv-IsSilent a fuel set buf (pos zero) v = λ x. (refl, refl)
recv-IsSilent a fuel set buf (pos (suc n)) v = recv_data-IsSilent a fuel set buf (suc n) v
