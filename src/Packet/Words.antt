-- ===== src/Packet/Words.antt =====
-- Four-byte words in memory, least byte first.
use test_libuv.Common.{
  ℕ, ◌+◌, ◌*◌, ◌/◌, ◌%◌, ◌^◌, ◌<◌, ◌≡◌, List, [], ◌∷◌, Option, some, ◌>>=◌, arith, slice,
}

unfoldable pub word_bytes : ℕ → List ℕ
word_bytes n = n % 256 ∷ n / 256 % 256 ∷ n / 65536 % 256 ∷ n / 16777216 % 256 ∷ []

-- The number that bytes stand for.
unfoldable pub le_value : List ℕ → ℕ
le_value [] = 0
le_value (b ∷ bs) = b + 256 * le_value bs

-- `*(uint32_t*)(base + i)`.
unfoldable pub load_word : List ℕ → ℕ → Option ℕ
unfolding slice
load_word base i = do w ← slice base i 4; some (le_value w)

pub le_value-word_bytes : (n : ℕ) → n < 2 ^ 32 → le_value (word_bytes n) ≡ n
unfolding le_value word_bytes
le_value-word_bytes n h = omega arith
