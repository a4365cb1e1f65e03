-- ===== src/PacketSync/Plain.antt =====
-- An allocator for the runs of the programs: an instance of `Allocator`.
use test_libuv.Common.{
  ◌∙◌, ℕ, ◌≡◌, List, ◌++◌, arith, replicate, take, length-replicate, ◌≤◌, length, take-append_le,
  take-take, length-take, length-append,
}
use test_libuv.PacketSync.{Allocator}

pub length-plain : (block : List ℕ) (n : ℕ) → length (take n (block ++ replicate n 0)) ≡ n
length-plain block n = omega (
  arith,
  length-take n (block ++ replicate n 0),
  length-append block (replicate n 0),
  length-replicate {A = ℕ} n 0,
)

pub take-plain :
    (block : List ℕ) (k n : ℕ)
    → k ≤ length block
    → k ≤ n
    → take k (take n (block ++ replicate n 0)) ≡ take k block
take-plain block k n h l =
    take-take k n (block ++ replicate n 0) l ∙ take-append_le k block (replicate n 0) h

-- New bytes are zeros.
abbrev pub plain : Allocator
plain = record {
  malloc = λ n. replicate n 0;
  realloc = λ block n. take n (block ++ replicate n 0);
  length-malloc = λ n. length-replicate n 0;
  length-realloc = length-plain;
  take-realloc = λ block k n h l. take-plain block k n h l;
}
