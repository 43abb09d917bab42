-- ===== src/Word.antt =====
-- Go's int64: a number below 2^64 that stands for itself below 2^63 and for itself less 2^64 from there.
use Prim.Native.Nat.{ℕ, ◌+◌, ◌%◌, ◌<◌, ◌≤◌}
use tenantkit.Decimal.{word_bound, int_bound}
use tenantkit.Prelude.{Bool, ltb, leb, ◌≡◌, arith, ◌-◌, false}

-- `a + b` and `a - b`, which wrap around.
unfoldable pub add : ℕ → ℕ → ℕ
add a b = (a + b) % word_bound

unfoldable pub sub : ℕ → ℕ → ℕ
sub a b = (a + (word_bound - b)) % word_bound

abbrev biased : ℕ → ℕ
biased a = (a + int_bound) % word_bound

-- `a < b` and `a <= b`, with the sign.
unfoldable pub less : ℕ → ℕ → Bool
less a b = ltb (biased a) (biased b)

unfoldable pub at_most : ℕ → ℕ → Bool
at_most a b = leb (biased a) (biased b)

-- Below 2^63 the operations are those of the numbers.
pub add-small : (a b : ℕ) → a + b < word_bound → add a b ≡ a + b
unfolding add
add-small a b h = ground arith

pub sub-small : (a b : ℕ) → b ≤ a → a < int_bound → sub a b ≡ a - b
unfolding sub
sub-small a b h k = ground arith

pub less-small : (a b : ℕ) → a < int_bound → b < int_bound → less a b ≡ ltb a b
unfolding less
less-small a b h k = ground arith

pub at_most-small : (a b : ℕ) → a < int_bound → b < int_bound → at_most a b ≡ leb a b
unfolding at_most
at_most-small a b h k = ground arith

-- A number from 2^63 on is negative.
pub less-negative : (a b : ℕ) → int_bound ≤ a → a < word_bound → b < int_bound → less b a ≡ false
unfolding less
less-negative a b h k l = ground arith
