-- ===== src/CircularBuffer/Tests.antt =====
-- Runs of the circular buffer, and its theorems at them.
use test_libuv.Common.{ℕ, ◌≡◌, refl, false, some, List, [], ◌∷◌, arith, pos, negsuc, copy}
use test_libuv.CircularBuffer.{PodCircularBuffer, write, read, clear, size}
use test_libuv.CircularBuffer.Queue
use test_libuv.CircularBuffer.Queue.{Call, Reply, writes, reads, clears, asks, put, get}
use test_libuv.CircularBuffer.Invariant.{IsValid}
use test_libuv.CircularBuffer.Write.{Writes, write-Writes}
use test_libuv.CircularBuffer.Read.{Reads, read-Reads}
use test_libuv.CircularBuffer.Refine.{run, run_refines}

-- 7, then 8, round the end of the block.
abbrev wrapped : PodCircularBuffer ℕ
wrapped = record {
  buf = 8 ∷ 0 ∷ 0 ∷ 7 ∷ [];
  buf_size = 4;
  read_pos = 3;
  write_pos = 1;
  is_empty = false;
  is_full = false;
}

abbrev three : List ℕ
three = 1 ∷ 2 ∷ 3 ∷ []

abbrev script : List (Call ℕ)
script =
    writes three (pos 3) ∷ asks ∷ reads (pos 3) ∷ reads (negsuc 0) ∷ reads (pos 9) ∷ clears ∷ []

wrapped-IsValid : IsValid wrapped
wrapped-IsValid = ground arith

run-wrapped :
    run wrapped script
    ≡ some ((2, []) ∷ (4, []) ∷ (3, 7 ∷ 8 ∷ 1 ∷ []) ∷ (0, []) ∷ (1, 2 ∷ []) ∷ (0, []) ∷ [])
unfolding run write read clear size copy
run-wrapped = refl

write-Writes_example : Writes 4 (7 ∷ 8 ∷ []) three 3 (write wrapped three (pos 3))
write-Writes_example = write-Writes wrapped three (pos 3) wrapped-IsValid (omega arith)

read-Reads_example : Reads 4 (7 ∷ 8 ∷ []) 1 (read wrapped (pos 1))
read-Reads_example = read-Reads wrapped (pos 1) wrapped-IsValid

run_refines_example : run wrapped script ≡ some (Queue.run 4 (7 ∷ 8 ∷ []) script)
run_refines_example = run_refines script wrapped wrapped-IsValid (omega arith)
