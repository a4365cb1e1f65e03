-- ===== src/TcpServer/Reuse.antt =====
-- `CTcpServer`: the start and the end of a session, and what a session context brings with it when a second client gets it.
use test_libuv.Common.{
  ℕ, suc, ◌+◌, ◌≡◌, refl, Bool, true, false, none, some, List, [], ◌∷◌, ◌⊎◌, inl, inr, ◌&&◌,
  if_elim, subst, if◌then◌else◌, arith, ℤ, pos, not, is_zero,
}
use test_libuv.PacketSync.{Allocator}
use test_libuv.TcpServer.{
  SessionCtx, Session, TcpServer, Effect, closing, active, closes_handle, calls_new_conn, find,
  insert, recycle,
}
use test_libuv.TcpServer.Accept.{
  accept_connection, take_from, accept_on, open_session, init_session,
}
use test_libuv.TcpServer.Maps.{IsMap, find-insert}

-- The bug: a client that gets the context of an earlier one gets the bytes that this left behind as
-- well. `Init` sets only the packet head, so they stand before the first bytes of the new client.
pub accept_keeps_bytes :
    (a : Allocator) (s : TcpServer) (ctx : SessionCtx) (idle : List SessionCtx)
    → s.idle ≡ ctx ∷ idle
    → IsMap 1 (suc s.last_id) s.session_map
    → let s' = (accept_connection a (pos 0) (pos 0) (pos 0) (pos 0) s).0 in
      (v : Session) × (find (suc s.last_id) s'.session_map ≡ some v)
      × (v.ctx.address ≡ ctx.address)
      × (v.ctx.packet.base ≡ ctx.packet.base)
      × (v.ctx.packet.real_packet_len ≡ ctx.packet.real_packet_len)
unfolding accept_connection accept_on open_session init_session take_from
accept_keeps_bytes a s ctx idle e m =
    let c = record ctx {
      handle = active;
      packet = record ctx.packet { head = s.packet_head; has_callback = true };
      client_id = suc s.last_id;
      parent_session = none;
    } in
    let v = init_session c s.looper in
    let found = find-insert 1 (suc s.last_id) v s.session_map m in
    (v, rw (e) found, refl, refl, refl)

-- What `AcceptConnection` may leave: a session under the next id, or the sessions as they were.
unfoldable pub Accepted : TcpServer → TcpServer × List Effect → Type 0
Accepted s (s', es) =
    let id = suc s.last_id in
    (v : Session) × (s'.session_map ≡ insert id v s.session_map)
    × (s'.last_id ≡ id)
    × (v.ctx.client_id ≡ id)
    × (v.ctx.handle ≡ active)
    × (v.ctx.packet.head ≡ s.packet_head)
    × (v.is_closed ≡ false)
    × (es ≡ (if s.has_new_conn_cb then calls_new_conn id ∷ [] else []))

unfoldable pub Refused : TcpServer → TcpServer × List Effect → Type 0
Refused s (s', es) =
    (s'.session_map ≡ s.session_map)
    × (s'.last_id ≡ s.last_id)
    × ((es ≡ []) ⊎ ((address : ℕ) × (es ≡ closes_handle address ∷ [])))

-- By whether all the calls of libuv have succeeded.
unfoldable pub Answers : Bool → TcpServer → TcpServer × List Effect → Type 0
unfolding Accepted Refused
Answers all_zero s r = ((all_zero ≡ true) × Accepted s r) ⊎ ((all_zero ≡ false) × Refused s r)

recycle_same :
    (ctx : SessionCtx) (s : TcpServer)
    → ((recycle ctx s).session_map ≡ s.session_map) × ((recycle ctx s).last_id ≡ s.last_id)
unfolding recycle
recycle_same ctx s = (ground arith, ground arith)

accept_on_lem :
    (a : Allocator) (i c r : ℤ) (ctx : SessionCtx) (s : TcpServer)
    → Answers (is_zero i && (is_zero c && is_zero r)) s (accept_on a i c r ctx s)
unfolding accept_on open_session init_session Answers Accepted Refused
accept_on_lem a i c r ctx s =
    let all_zero = is_zero i && (is_zero c && is_zero r) in
    let packet = record ctx.packet { head = s.packet_head; has_callback = true } in
    let v =
      init_session (record ctx { handle = active; packet = packet; client_id = suc s.last_id })
        s.looper in
    if_elim (Answers all_zero s) (not (is_zero i))
      (λ t. inr (ground (arith, t), (refl, refl, inl refl)))
      (λ t.
        if_elim (Answers all_zero s) (not (is_zero c))
          (λ u. inr (ground (arith, t, u), (refl, refl, inl refl)))
          (λ u.
            if_elim (Answers all_zero s) (not (is_zero r))
              (λ w.
                let (m, l) =
                  recycle_same
                    (record v.ctx {
                      handle = closing;
                      parent_session = ctx.parent_session;
                      client_id = ctx.client_id;
                    })
                    s in
                inr (ground (arith, t, u, w), (m, l, inr (ctx.address, refl))))
              (λ w. inl (ground (arith, t, u, w), (v, refl, refl, refl, refl, refl, refl, refl)))))

-- An answer does not look at the contexts that wait.
Answers-same :
    (b : Bool) (rest : List SessionCtx) (heap : ℕ) (s s1 : TcpServer) (r : TcpServer × List Effect)
    → s1 ≡ record s { idle = rest; heap = heap }
    → Answers b s1 r
    → Answers b s r
unfolding Answers Accepted Refused
Answers-same b rest heap s s1 (s', es) e h = subst (λ x. Answers b x (s', es)) e h

take_from_same :
    (a : Allocator) (idle : List SessionCtx) (s : TcpServer)
    → (rest : List SessionCtx) × (heap : ℕ) × ((take_from a idle s).1
        ≡ record s { idle = rest; heap = heap })
unfolding take_from
take_from_same a [] s = (s.idle, s.heap + 1, refl)
take_from_same a (ctx ∷ idle) s = (idle, s.heap, refl)

-- A connection for which every call of libuv succeeds becomes one session under the next id, in a
-- context whose handle is in use and with the server's packet head, and the user is told once; any
-- other leaves the sessions and the ids as they are and tells the user nothing.
pub accept_lem :
    (a : Allocator) (status i c r : ℤ) (s : TcpServer)
    → Answers
        (is_zero status && (is_zero i && (is_zero c && is_zero r)))
        s
        (accept_connection a status i c r s)
unfolding accept_connection Answers Accepted Refused
accept_lem a status i c r s =
    let all_zero = is_zero status && (is_zero i && (is_zero c && is_zero r)) in
    let (ctx, s1) = take_from a s.idle s in
    let (rest, heap, e) = take_from_same a s.idle s in
    if_elim (Answers all_zero s) (not (is_zero status))
      (λ t. inr (ground (arith, t), (refl, refl, inl refl)))
      (λ t.
        subst (λ b. Answers b s (accept_on a i c r ctx s1)) {y = all_zero} (ground (arith, t))
          (Answers-same _ rest heap s s1 (accept_on a i c r ctx s1) e
            (accept_on_lem a i c r ctx s1)))
