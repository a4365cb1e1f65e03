-- ===== src/CircularBuffer.antt =====
-- `PodCircularBuffer<T>` of uv/uv_utils.h. The fields `m_pBuf`, `m_nBufSize`, `m_nReadPos`,
-- `m_nWritePos`, `m_bEmpty`, `m_bFull` are `buf`, `buf_size`, `read_pos`, `write_pos`, `is_empty`,
-- `is_full`. A method that changes the object returns the new one beside its result; `none` stands
-- for a failed `assert` or a `memcpy` that leaves its block. The positions are C `int`s: the
-- differences that the code takes of them are never negative in a valid buffer.
pub mod Invariant
pub mod Queue
pub mod Read
pub mod Refine
pub mod Write
mod Tests
use test_libuv.Common.{
  ℕ, zero, suc, ◌+◌, ◌-◌, Bool, true, false, Option, none, some, List, [], ◌++◌, ltb, leb, ◌==◌,
  if◌then◌else◌, ℤ, pos, negsuc, ◌>>=◌, ◌>>◌, assert, slice, copy,
}

pub record PodCircularBuffer {ℓ} (A : Type ℓ) : Type ℓ where
  pub buf : List A
  pub buf_size : ℕ
  pub read_pos : ℕ
  pub write_pos : ℕ
  pub is_empty : Bool
  pub is_full : Bool

module _ {ℓ} {A : Type ℓ} where
  -- The constructor: `storage` is the array that `new T[capacity]` gives.
  pub init : List A → ℕ → PodCircularBuffer A
  init storage capacity = record {
    buf = storage;
    buf_size = capacity;
    read_pos = 0;
    write_pos = 0;
    is_empty = true;
    is_full = false;
  }

  pub clear : PodCircularBuffer A → PodCircularBuffer A
  clear b = record b { read_pos = 0; write_pos = 0; is_empty = true; is_full = false }

  pub size : PodCircularBuffer A → ℕ
  size b =
      if b.is_empty
      then 0
      else if b.is_full
      then b.buf_size
      else if ltb b.read_pos b.write_pos
      then b.write_pos - b.read_pos
      else b.buf_size - b.read_pos + b.write_pos

  pub full : PodCircularBuffer A → Bool
  full b = b.is_full

  pub empty : PodCircularBuffer A → Bool
  empty b = b.is_empty

  pub capacity : PodCircularBuffer A → ℕ
  capacity b = b.buf_size

  -- The two asserts at the end of a branch.
  pub check_positions : PodCircularBuffer A → Option (Unit {0})
  check_positions b = do assert (leb b.read_pos b.buf_size); assert (leb b.write_pos b.buf_size)

  -- `write` where `m_nReadPos == m_nWritePos`: the buffer was empty.
  pub write_drained : PodCircularBuffer A → List A → ℕ → Option (ℕ × PodCircularBuffer A)
  write_drained b src count =
      let left = b.buf_size - b.write_pos in
      let w = if ltb (count - left) b.read_pos then count - left else b.write_pos in
      if ltb count left
      then (do
        buf ← copy b.buf b.write_pos src 0 count
        some (count, record b { buf = buf; write_pos = b.write_pos + count }))
      else (do
        buf ← copy b.buf b.write_pos src 0 left
        buf' ← copy buf 0 src left w
        some (left + w, record b { buf = buf'; write_pos = w; is_full = w == b.read_pos }))

  -- The end of a branch of `write`: `m_bFull` is set by the positions, and these are asserted.
  pub wrote : PodCircularBuffer A → List A → ℕ → ℕ → Option (ℕ × PodCircularBuffer A)
  wrote b buf w n =
      let b' = record b { buf = buf; write_pos = w; is_full = b.read_pos == w } in
      do check_positions b'; some (n, b')

  -- `write` where `m_nReadPos < m_nWritePos`: room at the end, then at the start.
  pub write_ahead : PodCircularBuffer A → List A → ℕ → Option (ℕ × PodCircularBuffer A)
  unfolding wrote check_positions
  write_ahead b src count =
      let left = b.buf_size - b.write_pos in
      let w = if leb (count - left) b.read_pos then count - left else b.read_pos in
      if ltb count left
      then (do buf ← copy b.buf b.write_pos src 0 count; wrote b buf (b.write_pos + count) count)
      else (do
        buf ← copy b.buf b.write_pos src 0 left
        buf' ← copy buf 0 src left w
        wrote b buf' w (left + w))

  -- `write` where `m_nWritePos < m_nReadPos`: the room is one stretch, and what does not fit is
  -- dropped.
  pub write_behind : PodCircularBuffer A → List A → ℕ → Option (ℕ × PodCircularBuffer A)
  unfolding wrote check_positions
  write_behind b src count =
      let left = b.read_pos - b.write_pos in
      if ltb count left
      then (do buf ← copy b.buf b.write_pos src 0 count; wrote b buf (b.write_pos + count) count)
      else (do
        buf ← copy b.buf b.write_pos src 0 left
        assert (b.read_pos == b.write_pos + left)
        wrote b buf (b.write_pos + left) left)

  -- The returned number of objects taken, and the new buffer. `src` is the caller's array.
  unfoldable pub write : PodCircularBuffer A → List A → ℤ → Option (ℕ × PodCircularBuffer A)
  unfolding write_drained write_ahead write_behind
  write b src (negsuc n) = some (0, b)
  write b src (pos zero) = some (0, b)
  write b src (pos (suc n)) =
      let b' = record b { is_empty = false } in
      if b.is_full
      then some (0, b)
      else if b.read_pos == b.write_pos
      then write_drained b' src (suc n)
      else if ltb b.read_pos b.write_pos
      then write_ahead b' src (suc n)
      else write_behind b' src (suc n)

  -- `read` where `m_nReadPos == m_nWritePos`: the buffer was full. The result is the returned
  -- number, the objects copied out, and the new buffer.
  pub read_filled : PodCircularBuffer A → ℕ → Option (ℕ × List A × PodCircularBuffer A)
  read_filled b count =
      let left = b.buf_size - b.read_pos in
      let r = if ltb (count - left) b.write_pos then count - left else b.write_pos in
      if ltb count left
      then (do
        out ← slice b.buf b.read_pos count
        let r' = b.read_pos + count
        some (count, out, record b { read_pos = r'; is_empty = r' == b.write_pos }))
      else (do
        out ← slice b.buf b.read_pos left
        out' ← slice b.buf 0 r
        some (left + r, out ++ out', record b { read_pos = r; is_empty = r == b.write_pos }))

  -- The end of a branch of `read`: `m_bEmpty` is set by the positions, and these are asserted.
  pub took : PodCircularBuffer A → List A → ℕ → ℕ → Option (ℕ × List A × PodCircularBuffer A)
  took b out r n =
      let b' = record b { read_pos = r; is_empty = r == b.write_pos } in
      do check_positions b'; some (n, out, b')

  -- `read` where `m_nReadPos < m_nWritePos`: the objects are one stretch.
  pub read_behind : PodCircularBuffer A → ℕ → Option (ℕ × List A × PodCircularBuffer A)
  unfolding took check_positions
  read_behind b count =
      let left = b.write_pos - b.read_pos in
      let c = if ltb count left then count else left in
      do out ← slice b.buf b.read_pos c; took b out (b.read_pos + c) c

  -- `read` where `m_nWritePos < m_nReadPos`: objects at the end, then at the start.
  pub read_ahead : PodCircularBuffer A → ℕ → Option (ℕ × List A × PodCircularBuffer A)
  unfolding took check_positions
  read_ahead b count =
      let left = b.buf_size - b.read_pos in
      let r = if leb (count - left) b.write_pos then count - left else b.write_pos in
      if ltb count left
      then (do out ← slice b.buf b.read_pos count; took b out (b.read_pos + count) count)
      else (do
        out ← slice b.buf b.read_pos left
        out' ← slice b.buf 0 r
        took b (out ++ out') r (left + r))

  unfoldable pub read : PodCircularBuffer A → ℤ → Option (ℕ × List A × PodCircularBuffer A)
  unfolding read_filled read_behind read_ahead
  read b (negsuc n) = some (0, [], b)
  read b (pos zero) = some (0, [], b)
  read b (pos (suc n)) =
      let b' = record b { is_full = false } in
      if b.is_empty
      then some (0, [], b)
      else if b.read_pos == b.write_pos
      then read_filled b' (suc n)
      else if ltb b.read_pos b.write_pos
      then read_behind b' (suc n)
      else read_ahead b' (suc n)
