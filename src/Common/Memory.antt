-- ===== src/Common/Memory.antt =====
-- C memory as lists: `slice` is what a `memcpy` reads, `store` is what it writes. Both fault
-- (`none`) when they would leave the allocated block.
use Prim.Native.Nat.{ℕ, ◌+◌, ◌-◌, ◌≤◌, ◌<◌}
use mathlib.Core.Path.{◌≡◌, refl, ap, ◌∙◌}
use mathlib.Core.Option.{Option, none, some}
use mathlib.Core.List.{List, ◌++◌}
use native.Mathlib.Omega.{arith}
use test_libuv.Common.Tests.{leb, if◌then◌else◌, ◌>>=◌}
use test_libuv.Common.Lists.{
  length, take, drop, length-append, length-take, length-drop, take-append_le, take-append_add,
  drop-append_le, drop-append_add, drop-drop, take_all,
}

module _ {ℓ} {A : Type ℓ} where
  -- The `n` objects from index `i` on.
  unfoldable pub slice : List A → ℕ → ℕ → Option (List A)
  slice xs i n = if leb (i + n) (length xs) then some (take n (drop i xs)) else none

  -- The block with `src` copied over it from index `i` on.
  abbrev pub overwrite : List A → ℕ → List A → List A
  overwrite dst i src = take i dst ++ (src ++ drop (i + length src) dst)

  unfoldable pub store : List A → ℕ → List A → Option (List A)
  store dst i src = if leb (i + length src) (length dst) then some (overwrite dst i src) else none

  -- `memcpy(&dst[at], &src[i], n)`.
  unfoldable pub copy : List A → ℕ → List A → ℕ → ℕ → Option (List A)
  unfolding slice store
  copy dst at src i n = do chunk ← slice src i n; store dst at chunk

  -- Inside both blocks a copy does not fault, and puts the slice in its place.
  pub copy_lem :
      (dst : List A) (at : ℕ) (src : List A) (i n : ℕ)
      → i + n ≤ length src
      → at + n ≤ length dst
      → copy dst at src i n ≡ some (overwrite dst at (take n (drop i src)))
  unfolding copy
  copy_lem dst at src i n h k = ground (arith, length-take n (drop i src), length-drop i src)

  -- A copy that does not fit into its block leaves it.
  pub copy_fault :
      (dst : List A) (at : ℕ) (src : List A) (i n : ℕ)
      → length dst < at + n
      → copy dst at src i n ≡ none
  unfolding copy
  copy_fault dst at src i n h = ground (arith, length-take n (drop i src), length-drop i src)

  pub store_lem :
      (dst : List A) (at : ℕ) (src : List A)
      → at + length src ≤ length dst
      → store dst at src ≡ some (overwrite dst at src)
  unfolding store
  store_lem dst at src h = ground arith

  pub slice_lem :
      (src : List A) (i n : ℕ) → i + n ≤ length src → slice src i n ≡ some (take n (drop i src))
  unfolding slice
  slice_lem src i n h = ground arith

  pub length-overwrite :
      (dst : List A) (at : ℕ) (src : List A)
      → at + length src ≤ length dst
      → length (overwrite dst at src) ≡ length dst
  length-overwrite dst at src h = omega (
    arith,
    length-append (take at dst) (src ++ drop (at + length src) dst),
    length-append src (drop (at + length src) dst),
    length-take at dst,
    length-drop (at + length src) dst,
  )

  -- What stands before the end of the copy.
  pub take-overwrite :
      (dst : List A) (at : ℕ) (src : List A) (n : ℕ)
      → at + length src ≤ length dst
      → n ≡ at + length src
      → take n (overwrite dst at src) ≡ take at dst ++ src
  take-overwrite dst at src n h e =
      ap (λ j. take j (overwrite dst at src)) e
      ∙ take-append_add at (length src) (take at dst) _ (omega (arith, length-take at dst))
      ∙ ap (◌++◌ (take at dst))
          (take-append_le (length src) src _ (omega arith) ∙ take_all _ src (omega arith))

  -- What stands from an index before the copy on.
  pub drop-overwrite :
      (dst : List A) (at : ℕ) (src : List A) (r : ℕ)
      → at + length src ≤ length dst
      → r ≤ at
      → drop r (overwrite dst at src) ≡ drop r (take at dst) ++ (src ++ drop (at + length src) dst)
  drop-overwrite dst at src r h k =
      drop-append_le r (take at dst) _ (omega (arith, length-take at dst))

  -- What stands behind the copy.
  pub drop-overwrite_after :
      (dst : List A) (at : ℕ) (src : List A) (r : ℕ)
      → at + length src ≤ r
      → r ≤ length dst
      → drop r (overwrite dst at src) ≡ drop r dst
  drop-overwrite_after dst at src r h k =
      ap (λ j. drop j (overwrite dst at src)) split
      ∙ drop-append_add at (length src + rest) (take at dst) _ (omega (arith, length-take at dst))
      ∙ drop-append_add (length src) rest src _ refl
      ∙ drop-drop (at + length src) rest dst
      ∙ ap (λ j. drop j dst) {y = r} (omega arith)
    where
      rest : ℕ
      rest = r - (at + length src)

      split : r ≡ at + (length src + rest)
      split = omega arith
