-- ===== src/CircularBuffer/Write/Defs.antt =====
-- What a write leaves behind, and the end of a branch.
use test_libuv.Common.{
  assert, ◌>>◌, ℕ, ◌-◌, ◌<◌, min, ◌≡◌, Bool, true, false, Option, none, some, List, ◌++◌, arith,
  ltb, ◌==◌, if◌then◌else◌, length, take, drop,
}
use test_libuv.CircularBuffer.{PodCircularBuffer, wrote, check_positions}
use test_libuv.CircularBuffer.Invariant.{IsValid, contents}

module _ {A : Type 0} where
  -- What a write of `count` objects from `src` into a buffer of `size`, which held `q`, leaves behind.
  pub record Wrote (size : ℕ) (q src : List A) (count n : ℕ) (b' : PodCircularBuffer A)
      : Type 0 where
    pub valid : IsValid b'
    pub taken : n ≡ min count (size - length q)
    pub stored : contents b' ≡ q ++ take n src
    pub same_size : b'.buf_size ≡ size

  -- The write does not fault, and leaves that behind.
  abbrev pub Writes : ℕ → List A → List A → ℕ → Option (ℕ × PodCircularBuffer A) → Type 0
  Writes size q src count none = ⊥
  Writes size q src count (some (n, b')) = Wrote size q src count n b'

  -- The unread objects of `b` once its block is `buf`, filled up to `w`.
  abbrev pub held : PodCircularBuffer A → List A → ℕ → List A
  held b buf w =
      if ltb b.read_pos w then drop b.read_pos (take w buf) else drop b.read_pos buf ++ take w buf

module _ {A : Type 0} (b : PodCircularBuffer A) (src : List A) (count : ℕ)
    (read_in : b.read_pos < b.buf_size) (not_empty : b.is_empty ≡ false) where
  -- The end of a branch that has filled `buf` up to `w`.
  pub placed :
      (q buf : List A) (w n : ℕ) (full : Bool)
      → length buf ≡ b.buf_size
      → w < b.buf_size
      → n ≡ min count (b.buf_size - length q)
      → full ≡ (b.read_pos == w)
      → held b buf w ≡ q ++ take n src
      → Wrote b.buf_size q src count n (record b { buf = buf; write_pos = w; is_full = full })
  placed q buf w n full allocated write_in taken is_full stored = ground arith

  pub assert-Writes :
      (q : List A) (test : Bool) (m : Option (ℕ × PodCircularBuffer A))
      → test ≡ true
      → Writes b.buf_size q src count m
      → Writes b.buf_size q src count (assert test >> m)
  assert-Writes q test m e h = rw e h

  pub wrote-Writes :
      (q buf : List A) (w n : ℕ)
      → length buf ≡ b.buf_size
      → w < b.buf_size
      → n ≡ min count (b.buf_size - length q)
      → held b buf w ≡ q ++ take n src
      → Writes b.buf_size q src count (wrote b buf w n)
  unfolding wrote check_positions
  wrote-Writes q buf w n allocated write_in taken stored =
      ground (arith, placed q buf w n (b.read_pos == w))
