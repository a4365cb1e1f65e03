-- ===== src/CircularBuffer/Write/Ahead.antt =====
-- A write behind the unread objects, which may go round the end of the block.
use test_libuv.Common.{
  ℕ, ◌+◌, ◌-◌, ◌≤◌, ◌<◌, min, ◌≡◌, ◌∙◌, false, List, ◌++◌, arith, ltb, leb, ◌==◌, if◌then◌else◌,
  dec_lt, lt→ltb, le→ltb, length, take, drop, length-take, overwrite, copy_lem, length-overwrite,
}
use test_libuv.CircularBuffer.{PodCircularBuffer, write_drained, write_ahead}
use test_libuv.CircularBuffer.Write.Defs.{Writes, held, wrote-Writes, placed}
use test_libuv.CircularBuffer.Write.Round.{
  round, copied_end, length-ahead, copied_round, copies_round,
}

module _ {A : Type 0} (b : PodCircularBuffer A) (src : List A) (count : ℕ)
    (read_in : b.read_pos < b.buf_size) (not_empty : b.is_empty ≡ false)
    (allocated : length b.buf ≡ b.buf_size) (source : count ≤ length src) where
  -- What both kinds of a write that goes round leave behind.
  round_facts :
      (w : ℕ)
      → b.write_pos < b.buf_size
      → b.read_pos ≤ b.write_pos
      → b.buf_size - b.write_pos ≤ count
      → w ≡ min (count - (b.buf_size - b.write_pos)) b.read_pos
      → let n = b.buf_size - b.write_pos + w in
        (length (round b src count allocated source w) ≡ b.buf_size)
        × (w < b.buf_size)
        × (n ≡ min count (b.buf_size - length (drop b.read_pos (take b.write_pos b.buf))))
        × (held b (round b src count allocated source w) w
            ≡ drop b.read_pos (take b.write_pos b.buf) ++ take n src)
  round_facts w i o more e =
      let (len, stored) =
        copied_round b src count allocated source w (omega arith) (omega arith) o i in
      (
        len,
        omega arith,
        omega (arith, length-ahead b src count allocated source o i),
        rw (le→ltb b.read_pos w (omega arith)) stored,
      )

  end_facts :
      b.write_pos < b.buf_size
      → b.read_pos ≤ b.write_pos
      → 0 < count
      → count < b.buf_size - b.write_pos
      → let buf = overwrite b.buf b.write_pos (take count src) in
        let w = b.write_pos + count in
        (length buf ≡ b.buf_size)
        × (w < b.buf_size)
        × (count ≡ min count (b.buf_size - length (drop b.read_pos (take b.write_pos b.buf))))
        × (held b buf w ≡ drop b.read_pos (take b.write_pos b.buf) ++ take count src)
  end_facts i o some_left fits = (
    length-overwrite b.buf b.write_pos (take count src) (omega (arith, length-take count src))
        ∙ allocated,
    omega arith,
    omega (arith, length-ahead b src count allocated source o i),
    rw (lt→ltb b.read_pos (b.write_pos + count) (omega arith))
        (copied_end b src count allocated source count (omega arith) (omega arith) o),
  )

  pub write_ahead-Writes :
      b.write_pos < b.buf_size
      → b.read_pos < b.write_pos
      → 0 < count
      → Writes b.buf_size
          (drop b.read_pos (take b.write_pos b.buf))
          src
          count
          (write_ahead b src count)
  unfolding write_ahead
  write_ahead-Writes i o some_left = elim (dec_lt count (b.buf_size - b.write_pos)) [
    | yes p ↦
        let f = end_facts i (omega arith) some_left p in
        rw (lt→ltb _ _ p, copy_lem b.buf b.write_pos src 0 count (omega arith) (omega arith))
          (wrote-Writes b src count read_in not_empty _ _ (b.write_pos + count) count f.0 f.1 f.2
            f.3)
    | no p ↦
        let f = round_facts w i (omega arith) (omega arith) w_min in
        let c =
          copies_round b src count allocated source w (omega (arith, w_min)) (omega (arith, w_min))
            i in
        rw (le→ltb count (b.buf_size - b.write_pos) (omega arith), c.0, c.1)
          (wrote-Writes b src count read_in not_empty _ _ w (b.buf_size - b.write_pos + w) f.0 f.1
            f.2 f.3)
  ]
    where
      w : ℕ
      w =
          if leb (count - (b.buf_size - b.write_pos)) b.read_pos
          then count - (b.buf_size - b.write_pos)
          else b.read_pos

      w_min : w ≡ min (count - (b.buf_size - b.write_pos)) b.read_pos
      w_min = ground arith

  pub write_drained-Writes :
      b.write_pos < b.buf_size
      → b.read_pos ≡ b.write_pos
      → 0 < count
      → b.is_full ≡ false
      → Writes b.buf_size
          (drop b.read_pos (take b.write_pos b.buf))
          src
          count
          (write_drained b src count)
  unfolding write_drained
  write_drained-Writes i o some_left not_full = elim (dec_lt count (b.buf_size - b.write_pos)) [
    | yes p ↦
        let f = end_facts i (omega arith) some_left p in
        rw (lt→ltb _ _ p, copy_lem b.buf b.write_pos src 0 count (omega arith) (omega arith))
          (placed b src count read_in not_empty _ _ (b.write_pos + count) count b.is_full f.0 f.1
            f.2 (ground arith) f.3)
    | no p ↦
        let f = round_facts w i (omega arith) (omega arith) w_min in
        let c =
          copies_round b src count allocated source w (omega (arith, w_min)) (omega (arith, w_min))
            i in
        rw (le→ltb count (b.buf_size - b.write_pos) (omega arith), c.0, c.1)
          (placed b src count read_in not_empty _ _ w (b.buf_size - b.write_pos + w)
            (w == b.read_pos) f.0 f.1 f.2 (ground arith) f.3)
  ]
    where
      w : ℕ
      w =
          if ltb (count - (b.buf_size - b.write_pos)) b.read_pos
          then count - (b.buf_size - b.write_pos)
          else b.write_pos

      w_min : w ≡ min (count - (b.buf_size - b.write_pos)) b.read_pos
      w_min = ground arith
