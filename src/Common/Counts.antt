-- ===== src/Common/Counts.antt =====
-- How often a number stands in a list.
use Prim.Native.Nat.{ℕ, ◌+◌, ◌≤◌}
use mathlib.Core.Path.{◌≡◌, refl}
use mathlib.Core.Option.{Option, none, some}
use mathlib.Core.List.{List, [], ◌∷◌, ◌++◌}
use native.Mathlib.Omega.{arith}
use native.Mathlib.Decide.{ℕ_discrete}
use test_libuv.Common.Tests.{◌==◌, if◌then◌else◌}

abbrev pub hit : ℕ → ℕ → ℕ
hit x y = if x == y then 1 else 0

unfoldable pub count : ℕ → List ℕ → ℕ
count x [] = 0
count x (y ∷ ys) = hit x y + count x ys

pub count-append : (x : ℕ) (xs ys : List ℕ) → count x (xs ++ ys) ≡ count x xs + count x ys
unfolding count
count-append x [] ys = omega arith
count-append x (y ∷ xs) ys = omega (arith, count-append x xs ys)

-- A list in which no number stands is empty.
pub count_none : (xs : List ℕ) → ((x : ℕ) → count x xs ≡ 0) → xs ≡ []
unfolding count
count_none [] h = refl
count_none (x ∷ xs) h = absurd (ground (arith, h x))

-- `std::find` on a vector, and its `erase` of what was found.
unfoldable pub take_out : ℕ → List ℕ → Option (List ℕ)
take_out x [] = none
take_out x (y ∷ ys) =
    let rest = take_out x ys in
    if x == y then some ys else elim rest [ none ↦ none | some r ↦ some (y ∷ r) ]

-- What stands in a list can be taken out, and the rest stands as often as before.
pub take_out_lem :
    (x : ℕ) (xs : List ℕ)
    → 1 ≤ count x xs
    → (r : List ℕ) × (take_out x xs ≡ some r) × ((z : ℕ) → count z xs ≡ hit z x + count z r)
unfolding count take_out
take_out_lem x [] h = absurd (ground (arith, h))
take_out_lem x (y ∷ ys) h = elim (ℕ_discrete x y) [
  | yes e ↦ (ys, ground arith, λ z. ground arith)
  | no d ↦
      let (r, e, same) = take_out_lem x ys (ground (arith, h)) in
      (y ∷ r, ground (arith, e), λ z. omega (arith, same z))
]
