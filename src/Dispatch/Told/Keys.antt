-- ===== src/Dispatch/Told/Keys.antt =====
-- What a new session and the end of one change of the keys of the map.
use test_libuv.Common.{
  ℕ, suc, ◌+◌, ◌≡◌, ◌∙◌, refl, ap, true, Option, none, some, List, [], ◌∷◌, arith, hit,
  if◌then◌else◌,
}
use test_libuv.TcpServer.{Session, TcpServer, calls_close, find, insert, recycle, close_found}
use test_libuv.TcpServer.Maps.{IsMap, IsMap-bounds}
use test_libuv.Dispatch.Shutdown.{in_keys, close_found_lem}
use test_libuv.Dispatch.Told.{opened, ended}

pub in_keys-insert :
    (x lo k : ℕ) (v : Session) (m : List (ℕ × Session))
    → IsMap lo k m
    → in_keys x (insert k v m) ≡ hit x k + in_keys x m
unfolding IsMap insert in_keys
in_keys-insert x lo k v [] h = refl
in_keys-insert x lo k v ((j, w) ∷ m) (h, i, r) =
    ground (arith, in_keys-insert x (suc j) k v m r, IsMap-bounds (suc j) k m r)

pub close_found-last_id :
    (id : ℕ) (o : Option Session) (s : TcpServer) → (close_found id o s).0.last_id ≡ s.last_id
unfolding close_found recycle
close_found-last_id id none s = refl
close_found-last_id id (some v) s = ground arith

-- The session at the id, if there is one, leaves the map, and the user is told so.
pub closed_lem :
    (id : ℕ) (o : Option Session) (s : TcpServer)
    → find id s.session_map ≡ o
    → s.has_close_cb ≡ true
    → let (s', more) = close_found id o s in
      (x : ℕ)
      → (in_keys x s.session_map ≡ ended x more + in_keys x s'.session_map) × (opened x more ≡ 0)
unfolding close_found
closed_lem id none s e set x = (omega arith, refl)
closed_lem id (some v) s e set x =
    let c = close_found_lem id v s e in
    let one : (close_found id (some v) s).1 ≡ calls_close id ∷ [] =
      c.told ∙ ap (λ b. if b then calls_close id ∷ [] else []) set in
    (omega (arith, c.keys x, ap (ended x) one), ap (opened x) one)
