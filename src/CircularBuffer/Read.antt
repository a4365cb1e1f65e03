-- ===== src/CircularBuffer/Read.antt =====
-- `PodCircularBuffer<T>::read`: what it hands out and what it leaves, on each of its branches.
mod Branches
pub use Branches.{Took, Reads}
use test_libuv.CircularBuffer.Read.Branches.{read_behind-Reads, read_ahead-Reads, read_filled-Reads}
use test_libuv.Common.{
  ℕ, zero, suc, ◌+◌, ◌-◌, ◌≤◌, ◌<◌, min, ◌≡◌, refl, sym, ap₂, ◌∙◌, false, Option, none, some, List,
  [], ◌++◌, arith, ltb, leb, ◌==◌, if◌then◌else◌, if_elim, ==_iff, ltb→lt, dec_lt, lt→ltb, le→ltb,
  length, take, drop, length-append, length-take, length-drop, slice_lem, take_all, drop_all,
  take-append_le, drop-append_le, take-append_add, drop-append_add, take-drop-take, take-take,
  drop-drop, ℤ, pos, negsuc, pos_part,
}
use test_libuv.CircularBuffer.{
  PodCircularBuffer, read_filled, read_ahead, read_behind, took, check_positions, read,
}
use test_libuv.CircularBuffer.Invariant.{IsValid, contents}

module _ {A : Type 0} where
  unread :
      (b : PodCircularBuffer A) (count : ℕ)
      → IsValid b
      → min count (length (contents b)) ≡ 0
      → Took b.buf_size (contents b) count 0 [] b
  unread b count v e = record {
    valid = v;
    taken = omega arith;
    copied = refl;
    rest = refl;
    same_size = refl;
  }

  -- On a valid buffer, for every `count`, `read` does not fault: no copy leaves its block and no
  -- assert fails. It copies out the oldest objects in order, as many as there are and no more than
  -- `count` (none if `count` is negative), returns their number, leaves the others, and keeps the
  -- buffer valid and its capacity.
  pub read-Reads :
      (b : PodCircularBuffer A) (count : ℤ)
      → IsValid b
      → Reads b.buf_size (contents b) (pos_part count) (read b count)
  unfolding read
  read-Reads b (negsuc n) v = unread b 0 v (omega arith)
  read-Reads b (pos zero) v = unread b 0 v (omega arith)
  read-Reads b (pos (suc n)) v =
      if_elim (Reads b.buf_size (contents b) (suc n)) b.is_empty
        (λ empty. unread b (suc n) v (ground arith))
        λ occupied.
          if_elim (Reads b.buf_size (contents b) (suc n)) (b.read_pos == b.write_pos)
            (λ e.
              let e' : b.read_pos ≡ b.write_pos = (==_iff b.read_pos b.write_pos).0 e in
              rw (occupied, le→ltb b.read_pos b.write_pos (omega arith))
                (read_filled-Reads (record b { is_full = false }) (suc n) v.allocated v.read_in
                  v.write_in refl e' (omega arith)))
            λ ne.
              if_elim (Reads b.buf_size (contents b) (suc n)) (ltb b.read_pos b.write_pos)
                (λ lt.
                  rw (occupied, lt)
                    (read_behind-Reads (record b { is_full = false }) (suc n) v.allocated v.read_in
                      v.write_in refl (ltb→lt _ _ lt)))
                λ ge.
                  rw (occupied, ge)
                    (read_ahead-Reads (record b { is_full = false }) (suc n) v.allocated v.read_in
                      v.write_in refl (ground arith) (omega arith))
