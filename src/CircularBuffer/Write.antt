-- ===== src/CircularBuffer/Write.antt =====
-- `PodCircularBuffer<T>::write`: what it stores, on each of its branches.
mod Defs
mod Round
mod Behind
mod Ahead
pub use Defs.{Wrote, Writes}
use test_libuv.Common.{
  assert, ◌>>◌, ℕ, zero, suc, ◌+◌, ◌-◌, ◌≤◌, ◌<◌, min, ◌≡◌, refl, sym, ap, ap₂, ◌∙◌, Bool, true,
  false, Option, none, some, List, ◌++◌, arith, ltb, leb, ◌==◌, if◌then◌else◌, dec_lt, lt→ltb,
  le→ltb, copy, length, take, drop, length-append, length-take, length-drop, append_assoc,
  append-nil, overwrite, copy_lem, length-overwrite, take-overwrite, drop-overwrite,
  drop-overwrite_after, drop_all, drop-append_le, take_add, ℤ, pos, negsuc, pos_part, if_elim,
  ==_iff, ltb→lt,
}
use test_libuv.CircularBuffer.{
  PodCircularBuffer, write_drained, write_ahead, write_behind, wrote, check_positions, write,
}
use test_libuv.CircularBuffer.Invariant.{IsValid, contents, length-contents, size-full}
use Behind.{write_behind-Writes}
use Ahead.{write_ahead-Writes, write_drained-Writes}

module _ {A : Type 0} where
  -- Nothing is written where nothing is asked for or nothing fits.
  unwritten :
      (b : PodCircularBuffer A) (src : List A) (count : ℕ)
      → IsValid b
      → min count (b.buf_size - length (contents b)) ≡ 0
      → Wrote b.buf_size (contents b) src count 0 b
  unwritten b src count v e = record {
    valid = v;
    taken = omega arith;
    stored = sym (append-nil (contents b));
    same_size = refl;
  }

  -- Where the positions meet in a buffer that is not full, there is nothing to read.
  contents_met :
      (b : PodCircularBuffer A)
      → IsValid b
      → b.is_full ≡ false
      → b.read_pos ≡ b.write_pos
      → contents b ≡ drop b.read_pos (take b.write_pos b.buf)
  contents_met b v not_full e = ground (
    arith,
    v.met e,
    drop_all b.read_pos (take b.write_pos b.buf) (omega (arith, length-take b.write_pos b.buf)),
  )

  -- On a valid buffer, for every `count` that the source array holds, `write` does not fault: no
  -- copy leaves its block and no assert fails. It takes as many objects as there is room for and no
  -- more than `count` (none if `count` is negative), appends exactly those in order to the unread
  -- objects, returns their number, and keeps the buffer valid and its capacity.
  pub write-Writes :
      (b : PodCircularBuffer A) (src : List A) (count : ℤ)
      → IsValid b
      → pos_part count ≤ length src
      → Writes b.buf_size (contents b) src (pos_part count) (write b src count)
  unfolding write
  write-Writes b src (negsuc n) v h = unwritten b src 0 v (omega arith)
  write-Writes b src (pos zero) v h = unwritten b src 0 v (omega arith)
  write-Writes b src (pos (suc n)) v h =
      if_elim (Writes b.buf_size (contents b) src (suc n)) b.is_full
        (λ full. unwritten b src (suc n) v (omega (arith, length-contents b v, size-full b v full)))
        λ not_full.
          if_elim (Writes b.buf_size (contents b) src (suc n)) (b.read_pos == b.write_pos)
            (λ e.
              let e' : b.read_pos ≡ b.write_pos = (==_iff b.read_pos b.write_pos).0 e in
              rw (contents_met b v not_full e') (
                write_drained-Writes (record b { is_empty = false }) src (suc n) v.read_in refl
                  v.allocated h v.write_in e' (omega arith) not_full))
            λ ne.
              let occupied : b.is_empty ≡ false = ground arith in
              if_elim (Writes b.buf_size (contents b) src (suc n)) (ltb b.read_pos b.write_pos)
                (λ lt.
                  rw (occupied, lt)
                    (write_ahead-Writes (record b { is_empty = false }) src (suc n) v.read_in refl
                      v.allocated h v.write_in (ltb→lt _ _ lt) (omega arith)))
                λ ge.
                  rw (occupied, ge)
                    (write_behind-Writes (record b { is_empty = false }) src (suc n) v.read_in refl
                      v.allocated h (ground arith))
