-- ===== src/TcpServer/Maps.antt =====
-- The session map of `CTcpServer` as `std::map` keeps it: keys in order, each the id of its session's
-- context. The counts say how often a context stands in a list, by its address.
use test_libuv.Common.{
  hit, ℕ, suc, ◌+◌, ◌≤◌, ◌≡◌, refl, none, some, List, [], ◌∷◌, ◌++◌, arith, ℕ_discrete,
}
use test_libuv.TcpServer.{SessionCtx, Session, find, insert, erase}

-- The keys are from `lo` on and below `hi`.
unfoldable pub IsMap : ℕ → ℕ → List (ℕ × Session) → Type 0
IsMap lo hi [] = lo ≤ hi
IsMap lo hi ((k, v) ∷ m) = (lo ≤ k) × (v.ctx.client_id ≡ k) × IsMap (suc k) hi m

unfoldable pub in_map : ℕ → List (ℕ × Session) → ℕ
in_map x [] = 0
in_map x ((k, v) ∷ m) = hit x v.ctx.address + in_map x m

unfoldable pub in_idle : ℕ → List SessionCtx → ℕ
in_idle x [] = 0
in_idle x (c ∷ cs) = hit x c.address + in_idle x cs

pub in_idle-append :
    (x : ℕ) (cs ds : List SessionCtx) → in_idle x (cs ++ ds) ≡ in_idle x cs + in_idle x ds
unfolding in_idle
in_idle-append x [] ds = omega arith
in_idle-append x (c ∷ cs) ds = omega (arith, in_idle-append x cs ds)

pub IsMap-bounds : (lo hi : ℕ) (m : List (ℕ × Session)) → IsMap lo hi m → lo ≤ hi
unfolding IsMap
IsMap-bounds lo hi [] h = h
IsMap-bounds lo hi ((k, v) ∷ m) (h, i, r) = omega (arith, IsMap-bounds (suc k) hi m r)

IsMap-weaken : (lo k hi : ℕ) (m : List (ℕ × Session)) → lo ≤ k → IsMap k hi m → IsMap lo hi m
unfolding IsMap
IsMap-weaken lo k hi [] l h = omega arith
IsMap-weaken lo k hi ((k', v) ∷ m) l (h, i, r) = (omega arith, i, r)

-- A key that is above all others goes to the end.
pub insert-IsMap :
    (lo k : ℕ) (v : Session) (m : List (ℕ × Session))
    → v.ctx.client_id ≡ k
    → IsMap lo k m
    → IsMap lo (suc k) (insert k v m)
unfolding IsMap insert
insert-IsMap lo k v [] e h = (h, e, omega arith)
insert-IsMap lo k v ((k', v') ∷ m) e (h, i, r) =
    ground (arith, insert-IsMap (suc k') k v m e r, IsMap-bounds (suc k') k m r)

pub in_map-insert :
    (x lo k : ℕ) (v : Session) (m : List (ℕ × Session))
    → IsMap lo k m
    → in_map x (insert k v m) ≡ in_map x m + hit x v.ctx.address
unfolding IsMap insert in_map
in_map-insert x lo k v [] h = omega arith
in_map-insert x lo k v ((k', v') ∷ m) (h, i, r) =
    ground (arith, in_map-insert x (suc k') k v m r, IsMap-bounds (suc k') k m r)

pub erase-IsMap : (lo hi k : ℕ) (m : List (ℕ × Session)) → IsMap lo hi m → IsMap lo hi (erase k m)
unfolding IsMap erase
erase-IsMap lo hi k [] h = h
erase-IsMap lo hi k ((k', v) ∷ m) (h, i, r) =
    ground (arith, erase-IsMap (suc k') hi k m r, IsMap-weaken lo (suc k') hi m (omega arith) r)

pub in_map-erase :
    (x k : ℕ) (v : Session) (m : List (ℕ × Session))
    → find k m ≡ some v
    → in_map x m ≡ hit x v.ctx.address + in_map x (erase k m)
unfolding find erase in_map
in_map-erase x k v [] h = ground arith
in_map-erase x k v ((k', v') ∷ m) h = ground (arith, in_map-erase x k v m)

pub find-insert :
    (lo k : ℕ) (v : Session) (m : List (ℕ × Session))
    → IsMap lo k m
    → find k (insert k v m) ≡ some v
unfolding find insert IsMap
find-insert lo k v [] h = ground arith
find-insert lo k v ((j, w) ∷ m) (h, i, r) =
    ground (arith, find-insert (suc j) k v m r, IsMap-bounds (suc j) k m r)

-- A key below all others is not there, so each is there once.
find_below : (lo hi k : ℕ) (m : List (ℕ × Session)) → suc k ≤ lo → IsMap lo hi m → find k m ≡ none
unfolding find IsMap
find_below lo hi k [] l h = refl
find_below lo hi k ((j, v) ∷ m) l (h, i, r) =
    ground (arith, find_below (suc j) hi k m (omega arith) r)

pub find-erase : (lo hi k : ℕ) (m : List (ℕ × Session)) → IsMap lo hi m → find k (erase k m) ≡ none
unfolding find erase IsMap
find-erase lo hi k [] h = refl
find-erase lo hi k ((j, v) ∷ m) (h, i, r) =
    ground (arith, find_below (suc j) hi j m (omega arith) r, find-erase (suc j) hi k m r)

-- What is found has its key as its id, and the key is in the bounds.
pub find-bounds :
    (lo hi k : ℕ) (v : Session) (m : List (ℕ × Session))
    → IsMap lo hi m
    → find k m ≡ some v
    → (lo ≤ k) × (v.ctx.client_id ≡ k)
unfolding find IsMap
find-bounds lo hi k v [] h e = ground arith
find-bounds lo hi k v ((j, w) ∷ m) (h, i, r) e = elim (ℕ_discrete k j) [
  | yes d ↦ (ground arith, ground arith)
  | no d ↦ let (l, same) = find-bounds (suc j) hi k v m r (ground arith) in (omega arith, same)
]
