-- ===== src/CircularBuffer/Write/Round.antt =====
-- The copies of a write that goes on behind the unread objects, and round the end of the block.
use test_libuv.Common.{
  ℕ, ◌+◌, ◌-◌, ◌≤◌, ◌<◌, ◌≡◌, ap, ap₂, ◌∙◌, some, List, ◌++◌, arith, copy, length, take, drop,
  length-take, length-drop, append_assoc, append-nil, overwrite, copy_lem, length-overwrite,
  take-overwrite, drop-overwrite, drop-overwrite_after, drop_all, drop-append_le, take_add,
}
use test_libuv.CircularBuffer.{PodCircularBuffer}

module _ {A : Type 0} (b : PodCircularBuffer A) (src : List A) (count : ℕ)
    (allocated : length b.buf ≡ b.buf_size) (source : count ≤ length src) where
  -- One copy into the stretch behind the unread objects.
  pub copied_end :
      (n : ℕ)
      → n ≤ count
      → b.write_pos + n ≤ b.buf_size
      → b.read_pos ≤ b.write_pos
      → drop b.read_pos (take (b.write_pos + n) (overwrite b.buf b.write_pos (take n src)))
        ≡ drop b.read_pos (take b.write_pos b.buf) ++ take n src
  copied_end n h k o =
      let e : length (take n src) ≡ n = omega (arith, length-take n src) in
      ap (drop b.read_pos) (
        take-overwrite b.buf b.write_pos (take n src) (b.write_pos + n) (omega arith) (omega arith))
      ∙ drop-append_le b.read_pos (take b.write_pos b.buf) (take n src)
          (omega (arith, length-take b.write_pos b.buf))

  pub length-ahead :
      b.read_pos ≤ b.write_pos
      → b.write_pos < b.buf_size
      → length (drop b.read_pos (take b.write_pos b.buf)) ≡ b.write_pos - b.read_pos
  length-ahead h k =
      omega (arith, length-drop b.read_pos (take b.write_pos b.buf), length-take b.write_pos b.buf)

  -- The block after two copies: one up to its end, one from its start.
  abbrev pub round : ℕ → List A
  round w =
      let left = b.buf_size - b.write_pos in
      overwrite (overwrite b.buf b.write_pos (take left src)) 0 (take w (drop left src))

  pub copied_round :
      (w : ℕ)
      → b.buf_size - b.write_pos + w ≤ count
      → w ≤ b.read_pos
      → b.read_pos ≤ b.write_pos
      → b.write_pos < b.buf_size
      → (length (round w) ≡ b.buf_size)
        × (drop b.read_pos (round w) ++ take w (round w)
            ≡ drop b.read_pos (take b.write_pos b.buf) ++ take (b.buf_size - b.write_pos + w) src)
  copied_round w h k o i = (
    length-overwrite once 0 t (omega (arith, once_length, t_length))
        ∙ length-overwrite b.buf b.write_pos s (omega (arith, s_length))
        ∙ allocated,
    ap₂ ◌++◌
          (drop-overwrite_after once 0 t b.read_pos (omega (arith, t_length))
              (omega (arith, once_length))
            ∙ drop-overwrite b.buf b.write_pos s b.read_pos (omega (arith, s_length)) o
            ∙ ap (λ e. drop b.read_pos (take b.write_pos b.buf) ++ (s ++ e))
                (drop_all (b.write_pos + length s) b.buf (omega (arith, s_length)))
            ∙ ap (◌++◌ (drop b.read_pos (take b.write_pos b.buf))) (append-nil s))
          (take-overwrite once 0 t w (omega (arith, once_length, t_length))
            (omega (arith, t_length)))
        ∙ append_assoc (drop b.read_pos (take b.write_pos b.buf)) s t
        ∙ ap (◌++◌ (drop b.read_pos (take b.write_pos b.buf))) (take_add left w src),
  )
    where
      left : ℕ
      left = b.buf_size - b.write_pos

      s : List A
      s = take left src

      t : List A
      t = take w (drop left src)

      once : List A
      once = overwrite b.buf b.write_pos s

      s_length : length s ≡ left
      s_length = omega (arith, length-take left src)

      t_length : length t ≡ w
      t_length = omega (arith, length-take w (drop left src), length-drop left src)

      once_length : length once ≡ b.buf_size
      once_length = length-overwrite b.buf b.write_pos s (omega (arith, s_length)) ∙ allocated

  -- The two copies of a write that goes round the end of the block.
  pub copies_round :
      (w : ℕ)
      → b.buf_size - b.write_pos + w ≤ count
      → w ≤ b.buf_size
      → b.write_pos < b.buf_size
      → (copy b.buf b.write_pos src 0 (b.buf_size - b.write_pos)
          ≡ some (overwrite b.buf b.write_pos (take (b.buf_size - b.write_pos) src)))
        × (copy
              (overwrite b.buf b.write_pos (take (b.buf_size - b.write_pos) src))
              0
              src
              (b.buf_size - b.write_pos)
              w
            ≡ some (round w))
  copies_round w h k i = (
    copy_lem b.buf b.write_pos src 0 left (omega arith) (omega arith),
    copy_lem (overwrite b.buf b.write_pos (take left src)) 0 src left w (omega arith)
        (omega (arith, length-take left src, length-overwrite b.buf b.write_pos (take left src))),
  )
    where
      left : ℕ
      left = b.buf_size - b.write_pos
