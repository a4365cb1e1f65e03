-- ===== src/CircularBuffer/Read/Branches.antt =====
-- The three branches of `PodCircularBuffer<T>::read` on a buffer that is not empty.
use test_libuv.Common.{
  ℕ, ◌+◌, ◌-◌, ◌≤◌, ◌<◌, min, ◌≡◌, sym, ap₂, ◌∙◌, false, Option, none, some, List, [], ◌++◌, arith,
  ltb, leb, ◌==◌, if◌then◌else◌, dec_lt, lt→ltb, le→ltb, length, take, drop, length-append,
  length-take, length-drop, slice_lem, take_all, drop_all, take-append_le, drop-append_le,
  take-append_add, drop-append_add, take-drop-take, take-take, drop-drop,
}
use test_libuv.CircularBuffer.{
  PodCircularBuffer, read_filled, read_ahead, read_behind, took, check_positions,
}
use test_libuv.CircularBuffer.Invariant.{IsValid, contents}

module _ {A : Type 0} where
  -- What a read of `count` objects from a buffer of `size`, which held `q`, leaves behind.
  pub record Took (size : ℕ) (q : List A) (count n : ℕ) (out : List A) (b' : PodCircularBuffer A)
      : Type 0 where
    pub valid : IsValid b'
    pub taken : n ≡ min count (length q)
    pub copied : out ≡ take n q
    pub rest : contents b' ≡ drop n q
    pub same_size : b'.buf_size ≡ size

  -- The read does not fault, and leaves that behind.
  abbrev pub Reads : ℕ → List A → ℕ → Option (ℕ × List A × PodCircularBuffer A) → Type 0
  Reads size q count none = ⊥
  Reads size q count (some (n, out, b')) = Took size q count n out b'

module _ {A : Type 0} (b : PodCircularBuffer A) (count : ℕ) (allocated : length b.buf ≡ b.buf_size)
    (read_in : b.read_pos < b.buf_size) (write_in : b.write_pos < b.buf_size)
    (not_full : b.is_full ≡ false) where
  -- The unread objects once the reads have come to `r`.
  abbrev rest_from : ℕ → List A
  rest_from r =
      if r == b.write_pos
      then []
      else if ltb r b.write_pos
      then drop r (take b.write_pos b.buf)
      else drop r b.buf ++ take b.write_pos b.buf

  -- The end of a branch that has read up to `r`.
  branch-Took :
      (q out : List A) (r n : ℕ)
      → r < b.buf_size
      → n ≡ min count (length q)
      → out ≡ take n q
      → rest_from r ≡ drop n q
      → Took b.buf_size q count n out (record b { read_pos = r; is_empty = r == b.write_pos })
  branch-Took q out r n i taken copied rest = ground arith

  took-Reads :
      (q out : List A) (r n : ℕ)
      → r < b.buf_size
      → n ≡ min count (length q)
      → out ≡ take n q
      → rest_from r ≡ drop n q
      → Reads b.buf_size q count (took b out r n)
  unfolding took check_positions
  took-Reads q out r n i taken copied rest = ground (arith, branch-Took q out r n)

  length-ahead :
      length (drop b.read_pos b.buf ++ take b.write_pos b.buf)
      ≡ b.buf_size - b.read_pos + b.write_pos
  length-ahead = omega (
    arith,
    length-append (drop b.read_pos b.buf) (take b.write_pos b.buf),
    length-drop b.read_pos b.buf,
    length-take b.write_pos b.buf,
  )

  length-behind : length (drop b.read_pos (take b.write_pos b.buf)) ≡ b.write_pos - b.read_pos
  length-behind =
      omega (arith, length-drop b.read_pos (take b.write_pos b.buf), length-take b.write_pos b.buf)

  pub read_behind-Reads :
      b.read_pos < b.write_pos
      → Reads b.buf_size (drop b.read_pos (take b.write_pos b.buf)) count (read_behind b count)
  unfolding read_behind
  read_behind-Reads h = rw (slice_lem b.buf b.read_pos c (omega (arith, c_min))) (
      took-Reads q _ (b.read_pos + c) c (omega (arith, c_min)) (omega (arith, c_min, length-behind))
        (sym (take-drop-take b.read_pos c b.write_pos b.buf (omega (arith, c_min)))) rest)
    where
      q : List A
      q = drop b.read_pos (take b.write_pos b.buf)

      c : ℕ
      c = if ltb count (b.write_pos - b.read_pos) then count else b.write_pos - b.read_pos

      c_min : c ≡ min count (b.write_pos - b.read_pos)
      c_min = ground arith

      rest : rest_from (b.read_pos + c) ≡ drop c q
      rest = elim (dec_lt (b.read_pos + c) b.write_pos) [
        | yes p ↦ ground (arith, drop-drop b.read_pos c (take b.write_pos b.buf))
        | no p ↦ ground (arith, c_min, drop_all c q, length-behind)
      ]

  -- The first `count` of the objects that stand before the end of the block.
  near_facts :
      b.write_pos ≤ b.read_pos
      → 0 < count
      → count < b.buf_size - b.read_pos
      → let q = drop b.read_pos b.buf ++ take b.write_pos b.buf in
        let r = b.read_pos + count in
        (r < b.buf_size)
        × (count ≡ min count (length q))
        × (take count (drop b.read_pos b.buf) ≡ take count q)
        × (rest_from r ≡ drop count q)
  near_facts o some_left fits = (
    omega arith,
    omega (arith, length-ahead),
    sym (
        take-append_le count (drop b.read_pos b.buf) _
          (omega (arith, length-drop b.read_pos b.buf))),
    ground (
      arith,
      drop-append_le count (drop b.read_pos b.buf) (take b.write_pos b.buf)
          (omega (arith, length-drop b.read_pos b.buf)),
      drop-drop b.read_pos count b.buf,
    ),
  )

  -- All the objects before the end of the block, and `r` from its start.
  far_facts :
      (r : ℕ)
      → b.buf_size - b.read_pos ≤ count
      → r ≡ min (count - (b.buf_size - b.read_pos)) b.write_pos
      → let q = drop b.read_pos b.buf ++ take b.write_pos b.buf in
        let n = b.buf_size - b.read_pos + r in
        (r < b.buf_size)
        × (n ≡ min count (length q))
        × (take (b.buf_size - b.read_pos) (drop b.read_pos b.buf) ++ take r b.buf ≡ take n q)
        × (rest_from r ≡ drop n q)
  far_facts r more e = (
    omega arith,
    omega (arith, length-ahead),
    ap₂ ◌++◌ (take_all left end (omega (arith, end_length)))
          (sym (take-take r b.write_pos b.buf (omega arith)))
        ∙ sym (take-append_add left r end start end_length),
    ground (
      arith,
      drop-append_add left r end start end_length,
      drop_all r start,
      length-take b.write_pos b.buf,
    ),
  )
    where
      left : ℕ
      left = b.buf_size - b.read_pos

      end : List A
      end = drop b.read_pos b.buf

      start : List A
      start = take b.write_pos b.buf

      end_length : length end ≡ left
      end_length = omega (arith, length-drop b.read_pos b.buf)

  pub read_ahead-Reads :
      b.write_pos < b.read_pos
      → 0 < count
      → Reads b.buf_size
          (drop b.read_pos b.buf ++ take b.write_pos b.buf)
          count
          (read_ahead b count)
  unfolding read_ahead
  read_ahead-Reads o some_left = elim (dec_lt count (b.buf_size - b.read_pos)) [
    | yes p ↦
        let f = near_facts (omega arith) some_left p in
        rw (lt→ltb _ _ p, slice_lem b.buf b.read_pos count (omega arith))
          (took-Reads _ _ (b.read_pos + count) count f.0 f.1 f.2 f.3)
    | no p ↦
        let f = far_facts r (omega arith) r_min in
        rw
          (
            le→ltb count (b.buf_size - b.read_pos) (omega arith),
            slice_lem b.buf b.read_pos (b.buf_size - b.read_pos) (omega arith),
            slice_lem b.buf 0 r (omega (arith, r_min)),
          )
          (took-Reads _ _ r (b.buf_size - b.read_pos + r) f.0 f.1 f.2 f.3)
  ]
    where
      r : ℕ
      r =
          if leb (count - (b.buf_size - b.read_pos)) b.write_pos
          then count - (b.buf_size - b.read_pos)
          else b.write_pos

      r_min : r ≡ min (count - (b.buf_size - b.read_pos)) b.write_pos
      r_min = ground arith

  pub read_filled-Reads :
      b.read_pos ≡ b.write_pos
      → 0 < count
      → Reads b.buf_size
          (drop b.read_pos b.buf ++ take b.write_pos b.buf)
          count
          (read_filled b count)
  unfolding read_filled
  read_filled-Reads o some_left = elim (dec_lt count (b.buf_size - b.read_pos)) [
    | yes p ↦
        let f = near_facts (omega arith) some_left p in
        rw (lt→ltb _ _ p, slice_lem b.buf b.read_pos count (omega arith))
          (branch-Took _ _ (b.read_pos + count) count f.0 f.1 f.2 f.3)
    | no p ↦
        let f = far_facts r (omega arith) r_min in
        rw
          (
            le→ltb count (b.buf_size - b.read_pos) (omega arith),
            slice_lem b.buf b.read_pos (b.buf_size - b.read_pos) (omega arith),
            slice_lem b.buf 0 r (omega (arith, r_min)),
          )
          (branch-Took _ _ r (b.buf_size - b.read_pos + r) f.0 f.1 f.2 f.3)
  ]
    where
      r : ℕ
      r =
          if ltb (count - (b.buf_size - b.read_pos)) b.write_pos
          then count - (b.buf_size - b.read_pos)
          else b.write_pos

      r_min : r ≡ min (count - (b.buf_size - b.read_pos)) b.write_pos
      r_min = ground arith
