-- ===== src/CircularBuffer/Queue.antt =====
-- What `PodCircularBuffer<T>` promises: a first-in first-out queue of at most `cap` objects. The
-- calls of a client, in order, and the reply that it gets of each.
use test_libuv.Common.{ℕ, ◌-◌, ◌≤◌, min, List, [], ◌∷◌, ◌++◌, length, take, drop, ℤ, pos_part}

pub data Call (A : Type 0) : Type 0 where
  writes : List A → ℤ → Call A
  reads : ℤ → Call A
  clears : Call A
  asks : Call A

-- The returned number, and what went out through the caller's array.
abbrev pub Reply : Type 0 → Type 0
Reply A = ℕ × List A

module _ {A : Type 0} where
  -- Every array that is written from holds the objects that the call names.
  abbrev pub Holds : List (Call A) → Type 0
  Holds [] = Unit
  Holds (writes src count ∷ cs) = (pos_part count ≤ length src) × Holds cs
  Holds (reads count ∷ cs) = Holds cs
  Holds (clears ∷ cs) = Holds cs
  Holds (asks ∷ cs) = Holds cs

  unfoldable pub put : ℕ → List A → List A → ℕ → ℕ × List A
  put cap q src count = let n = min count (cap - length q) in (n, q ++ take n src)

  unfoldable pub get : List A → ℕ → ℕ × List A × List A
  get q count = let n = min count (length q) in (n, take n q, drop n q)

  unfoldable pub run : ℕ → List A → List (Call A) → List (Reply A)
  run cap q [] = []
  run cap q (writes src count ∷ cs) =
      let (n, q') = put cap q src (pos_part count) in (n, []) ∷ run cap q' cs
  run cap q (reads count ∷ cs) =
      let (n, out, q') = get q (pos_part count) in (n, out) ∷ run cap q' cs
  run cap q (clears ∷ cs) = (0, []) ∷ run cap [] cs
  run cap q (asks ∷ cs) = (length q, []) ∷ run cap q cs
