-- ===== src/CircularBuffer/Write/Behind.antt =====
-- A write where the room is one stretch before the unread objects.
use test_libuv.Common.{
  ℕ, ◌+◌, ◌-◌, ◌≤◌, ◌<◌, min, ◌≡◌, sym, ap₂, ◌∙◌, true, false, List, ◌++◌, arith, ◌==◌, dec_lt,
  lt→ltb, le→ltb, length, take, drop, length-append, length-take, length-drop, append_assoc,
  overwrite, copy_lem, length-overwrite, take-overwrite, drop-overwrite_after,
}
use test_libuv.CircularBuffer.{PodCircularBuffer, write_behind, wrote}
use test_libuv.CircularBuffer.Write.Defs.{Writes, wrote-Writes, assert-Writes}

module _ {A : Type 0} (b : PodCircularBuffer A) (src : List A) (count : ℕ)
    (read_in : b.read_pos < b.buf_size) (not_empty : b.is_empty ≡ false)
    (allocated : length b.buf ≡ b.buf_size) (source : count ≤ length src) where
  -- One copy into the stretch before the unread objects.
  copied_behind :
      (n : ℕ)
      → n ≤ count
      → b.write_pos + n ≤ b.read_pos
      → drop b.read_pos (overwrite b.buf b.write_pos (take n src))
          ++ take (b.write_pos + n) (overwrite b.buf b.write_pos (take n src))
        ≡ drop b.read_pos b.buf ++ take b.write_pos b.buf ++ take n src
  copied_behind n h k =
      let t = take n src in
      let e : length (take n src) ≡ n = omega (arith, length-take n src) in
      ap₂ ◌++◌ (drop-overwrite_after b.buf b.write_pos t b.read_pos (omega arith) (omega arith))
        (take-overwrite b.buf b.write_pos t (b.write_pos + n) (omega arith) (omega arith))
      ∙ sym (append_assoc (drop b.read_pos b.buf) (take b.write_pos b.buf) t)

  length-behind :
      b.write_pos < b.read_pos
      → length (drop b.read_pos b.buf ++ take b.write_pos b.buf)
        ≡ b.buf_size - b.read_pos + b.write_pos
  length-behind h = omega (
    arith,
    length-append (drop b.read_pos b.buf) (take b.write_pos b.buf),
    length-drop b.read_pos b.buf,
    length-take b.write_pos b.buf,
  )

  behind-Writes :
      (n : ℕ)
      → b.write_pos < b.read_pos
      → n ≡ min count (b.read_pos - b.write_pos)
      → Writes b.buf_size
          (drop b.read_pos b.buf ++ take b.write_pos b.buf)
          src
          count
          (wrote b (overwrite b.buf b.write_pos (take n src)) (b.write_pos + n) n)
  behind-Writes n h e =
      wrote-Writes b src count read_in not_empty _ _ (b.write_pos + n) n
        (length-overwrite b.buf b.write_pos (take n src) (omega (arith, length-take n src))
          ∙ allocated)
        (omega arith) (omega (arith, length-behind h))
        (rw (le→ltb b.read_pos (b.write_pos + n) (omega arith))
          (copied_behind n (omega arith) (omega arith)))

  pub write_behind-Writes :
      b.write_pos < b.read_pos
      → Writes b.buf_size
          (drop b.read_pos b.buf ++ take b.write_pos b.buf)
          src
          count
          (write_behind b src count)
  unfolding write_behind
  write_behind-Writes h = elim (dec_lt count (b.read_pos - b.write_pos)) [
    | yes p ↦
        rw (lt→ltb _ _ p, copy_lem b.buf b.write_pos src 0 count (omega arith) (omega arith))
          (behind-Writes count h (omega arith))
    | no p ↦
        rw
          (
            le→ltb count (b.read_pos - b.write_pos) (omega arith),
            copy_lem b.buf b.write_pos src 0 (b.read_pos - b.write_pos) (omega arith) (omega arith),
          )
          (assert-Writes b src count read_in not_empty _ _ _ met
            (behind-Writes (b.read_pos - b.write_pos) h (omega arith)))
  ]
    where
      met : (b.read_pos == b.write_pos + (b.read_pos - b.write_pos)) ≡ true
      met = ground arith
      -- One copy into the stretch behind the unread objects.
