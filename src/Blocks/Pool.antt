-- ===== src/Blocks/Pool.antt =====
-- Who owns the blocks of the write requests that `CTcpServer` of uv/TcpServer.cpp keeps in a pool:
-- `writeparam_list_` is `available`, and a request on which `uv_write` has been called, and
-- `AfterSend` has not, stands in `writing`. The bytes in the requests are those of
-- `TcpServer.Sending`; `realloc` is the C library's, and an argument says whether the block moves.
pub mod Owned
pub mod Steps
mod Tests
use test_libuv.Common.{
  ℕ, zero, ◌+◌, Bool, Option, none, some, List, [], ◌∷◌, ◌++◌, ◌>>=◌, ◌>>◌, assert, ltb, length,
  count, is_zero, ℤ, if◌then◌else◌,
}
use test_libuv.PacketSync.{pack_buffer_size}
use test_libuv.TcpServer.{max_list_size}
use test_libuv.Blocks.{Heap, malloc, free, RequestBlock, alloc_write_param, free_write_param}

-- A request, by its two blocks, and its `buf_.len`.
pub record PoolRequest : Type 0 where
  pub block : RequestBlock
  pub len : ℕ

pub record PoolSystem : Type 0 where
  pub heap : Heap
  pub available : List PoolRequest
  pub writing : List PoolRequest

abbrev pub is_live : ℕ → Heap → Bool
is_live x h = ltb 0 (count x h.live)

-- A block that is not allocated is a fault.
unfoldable pub realloc : Bool → ℕ → Heap → Option (ℕ × Heap)
unfolding free
realloc moves x h = do
  assert (is_live x h)
  let (y, h1) = malloc h
  if moves then (do h2 ← free x h1; some (y, h2)) else some (x, h)

unfoldable pub take_request : List PoolRequest → PoolSystem → PoolRequest × PoolSystem
unfolding alloc_write_param
take_request [] s =
    let (r, h) = alloc_write_param s.heap in
    (record { block = r; len = pack_buffer_size }, record s { heap = h })
take_request (p ∷ ps) s = (p, record s { available = ps })

-- The request made to hold `size` bytes.
unfoldable pub widen_request :
    Bool → ℕ → PoolRequest → PoolSystem → Option (PoolRequest × PoolSystem)
unfolding realloc
widen_request moves size p s =
    if ltb p.len size
    then (do
      (b, h) ← realloc moves p.block.base s.heap
      some (
        record { block = record { address = p.block.address; base = b }; len = size },
        record s { heap = h },
      ))
    else some (p, s)

-- `sendinl`, with the code of `uv_write`. A copy into a block that is not allocated is a fault.
unfoldable pub sendinl : Bool → ℤ → ℕ → PoolSystem → Option PoolSystem
unfolding take_request widen_request
sendinl moves code size s =
    let (p, s1) = take_request s.available s in
    do
      (p', s2) ← widen_request moves size p s1
      assert (is_live p'.block.base s2.heap)
      assert (is_live p'.block.address s2.heap)
      let sent : PoolRequest = record { block = p'.block; len = size }
      some (
          if is_zero code
          then record s2 { writing = s2.writing ++ (sent ∷ []) }
          else record s2 { available = s2.available ++ (sent ∷ []) })

-- `AfterSend` on a request; `rest` are the others.
unfoldable pub after_send : PoolRequest → List PoolRequest → PoolSystem → Option PoolSystem
unfolding free_write_param
after_send p rest s =
    if ltb max_list_size (length s.available)
    then (do h ← free_write_param p.block s.heap; some (record s { heap = h; writing = rest }))
    else some (record s { available = s.available ++ (p ∷ []); writing = rest })

-- The loop of the destructor over the pool.
unfoldable pub free_all : List PoolRequest → Heap → Option Heap
unfolding free_write_param
free_all [] h = some h
free_all (p ∷ ps) h = do h1 ← free_write_param p.block h; free_all ps h1

unfoldable pub destroy : PoolSystem → Option PoolSystem
unfolding free_all
destroy s = do h ← free_all s.available s.heap; some (record s { heap = h; available = [] })
