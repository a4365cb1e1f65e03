-- ===== src/CircularBuffer/Invariant.antt =====
-- The representation invariant of `PodCircularBuffer<T>` and the objects that it holds.
use test_libuv.Common.{
  ℕ, ◌<◌, ◌≡◌, true, false, ◌⊎◌, List, [], ◌++◌, arith, ltb, if◌then◌else◌, length, take, drop,
  length-append, length-take, length-drop,
}
use test_libuv.CircularBuffer.{PodCircularBuffer, init, clear, size}

module _ {ℓ} {A : Type ℓ} where
  -- The flags say which of the two cases equal positions stand for.
  pub record IsValid (b : PodCircularBuffer A) : Type ℓ where
    pub allocated : length b.buf ≡ b.buf_size
    pub read_in : b.read_pos < b.buf_size
    pub write_in : b.write_pos < b.buf_size
    pub met : b.read_pos ≡ b.write_pos → (b.is_empty ≡ true) ⊎ (b.is_full ≡ true)
    pub empty_met : b.is_empty ≡ true → b.read_pos ≡ b.write_pos
    pub full_met : b.is_full ≡ true → b.read_pos ≡ b.write_pos
    pub not_both : b.is_empty ≡ true → b.is_full ≡ false

  -- The unread objects, oldest first.
  abbrev pub contents : PodCircularBuffer A → List A
  contents b =
      if b.is_empty
      then []
      else if ltb b.read_pos b.write_pos
      then drop b.read_pos (take b.write_pos b.buf)
      else drop b.read_pos b.buf ++ take b.write_pos b.buf

  pub init-IsValid :
      (storage : List A) (capacity : ℕ)
      → length storage ≡ capacity
      → 0 < capacity
      → IsValid (init storage capacity) × (contents (init storage capacity) ≡ [])
  unfolding init
  init-IsValid storage capacity h k = ground arith

  pub clear-IsValid :
      (b : PodCircularBuffer A) → IsValid b → IsValid (clear b) × (contents (clear b) ≡ [])
  unfolding clear
  clear-IsValid b v = ground arith

  -- `size()` of a valid buffer is the number of its unread objects.
  pub length-contents : (b : PodCircularBuffer A) → IsValid b → length (contents b) ≡ size b
  unfolding size
  length-contents b v = ground (
    arith,
    v.met,
    length-drop b.read_pos (take b.write_pos b.buf),
    length-take b.write_pos b.buf,
    length-drop b.read_pos b.buf,
    length-append (drop b.read_pos b.buf) (take b.write_pos b.buf),
  )

  pub size-full : (b : PodCircularBuffer A) → IsValid b → b.is_full ≡ true → size b ≡ b.buf_size
  unfolding size
  size-full b v h = ground arith
