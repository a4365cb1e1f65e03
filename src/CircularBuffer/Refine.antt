-- ===== src/CircularBuffer/Refine.antt =====
-- A valid circular buffer behaves as the queue of the objects that it holds.
use test_libuv.Common.{ℕ, ◌≡◌, refl, Option, none, some, List, [], ◌∷◌, ◌>>=◌, pos_part}
use test_libuv.CircularBuffer.{PodCircularBuffer, write, read, clear, size}
use test_libuv.CircularBuffer.Queue
use test_libuv.CircularBuffer.Queue.{Call, Reply, Holds, writes, reads, clears, asks, put, get}
use test_libuv.CircularBuffer.Invariant.{IsValid, contents, length-contents, clear-IsValid}
use test_libuv.CircularBuffer.Write.{Writes, write-Writes}
use test_libuv.CircularBuffer.Read.{Reads, read-Reads}

module _ {A : Type 0} where
  -- The calls on the buffer, up to a fault.
  unfoldable pub run : PodCircularBuffer A → List (Call A) → Option (List (Reply A))
  run b [] = some []
  run b (writes src count ∷ cs) = do
    (n, b') ← write b src count
    rest ← run b' cs
    some ((n, []) ∷ rest)
  run b (reads count ∷ cs) = do
    (n, out, b') ← read b count
    rest ← run b' cs
    some ((n, out) ∷ rest)
  run b (clears ∷ cs) = do rest ← run (clear b) cs; some ((0, []) ∷ rest)
  run b (asks ∷ cs) = do rest ← run b cs; some ((size b, []) ∷ rest)

  -- The calls `cs` on every valid buffer give the replies of its queue.
  abbrev Refines : List (Call A) → Type 0
  Refines cs =
      (b : PodCircularBuffer A) → IsValid b → run b cs ≡ some (Queue.run b.buf_size (contents b) cs)

  after_write :
      (size : ℕ) (q src : List A) (count : ℕ) (cs : List (Call A))
      (o : Option (ℕ × PodCircularBuffer A))
      → Writes size q src count o
      → Refines cs
      → (o >>= λ p. run p.1 cs >>= λ rest. some ((p.0, []) ∷ rest))
        ≡ some (let (n, q') = put size q src count in (n, []) ∷ Queue.run size q' cs)
  unfolding put
  after_write size q src count cs none w ih = absurd w
  after_write size q src count cs (some (n, b')) w ih =
      rw (ih b' w.valid, w.same_size, w.stored, ← w.taken)

  after_read :
      (size : ℕ) (q : List A) (count : ℕ) (cs : List (Call A))
      (o : Option (ℕ × List A × PodCircularBuffer A))
      → Reads size q count o
      → Refines cs
      → (o >>= λ p. run p.2 cs >>= λ rest. some ((p.0, p.1) ∷ rest))
        ≡ some (let (n, out, q') = get q count in (n, out) ∷ Queue.run size q' cs)
  unfolding get
  after_read size q count cs none w ih = absurd w
  after_read size q count cs (some (n, out, b')) w ih =
      rw (ih b' w.valid, w.same_size, w.rest, w.copied, ← w.taken)

  -- No sequence of calls faults, nor tells a valid buffer from the bounded queue of its contents, if
  -- each array that is written from holds the objects that its call names.
  pub run_refines :
      (cs : List (Call A)) (b : PodCircularBuffer A)
      → IsValid b
      → Holds cs
      → run b cs ≡ some (Queue.run b.buf_size (contents b) cs)
  unfolding run Queue.run put get
  run_refines [] b v h = refl
  run_refines (writes src count ∷ cs) b v h =
      after_write b.buf_size (contents b) src (pos_part count) cs (write b src count)
        (write-Writes b src count v h.0) (λ b' v'. run_refines cs b' v' h.1)
  run_refines (reads count ∷ cs) b v h =
      after_read b.buf_size (contents b) (pos_part count) cs (read b count) (read-Reads b count v)
        (λ b' v'. run_refines cs b' v' h)
  run_refines (clears ∷ cs) b v h =
      let (v', e) = clear-IsValid b v in
      rw (run_refines cs (clear b) v' h, e) (unfold clear in refl)
  run_refines (asks ∷ cs) b v h = rw (run_refines cs b v h, length-contents b v)
