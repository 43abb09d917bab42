-- ===== src/Decimal.antt =====
-- Decimal numbers as fmt prints them by %d and scans them, for Go's 64-bit int.
pub mod RoundTrip
use tenantkit.Prelude.{
  ℕ, zero, suc, ◌+◌, ◌-◌, ◌*◌, ◌/◌, ◌%◌, Bool, ◌&&◌, List, [], ◌∷◌, ◌++◌, ltb, leb, if◌then◌else◌,
}
use tenantkit.Text.{Bytes}

-- 2 ^ 63 and 2 ^ 64
abbrev pub int_bound : ℕ
int_bound = 9_223_372_036_854_775_808

abbrev pub word_bound : ℕ
word_bound = 18_446_744_073_709_551_616

abbrev pub is_digit : ℕ → Bool
is_digit c = leb b'0' c && leb c b'9'

-- The digits of a number, the highest first. The first argument bounds their count.
unfoldable pub show_fuel : ℕ → ℕ → Bytes
show_fuel zero n = []
show_fuel (suc f) n =
    let more = show_fuel f (n / 10) ++ (48 + n % 10) ∷ [] in
    if ltb n 10 then (48 + n) ∷ [] else more

unfoldable pub show : ℕ → Bytes
unfolding show_fuel
show n = show_fuel (suc n) n

-- %d of an int with the bits `n`
unfoldable pub show_int : ℕ → Bytes
unfolding show
show_int n = if ltb n int_bound then show n else b'-' ∷ show (word_bound - n)

unfoldable pub value_from : ℕ → Bytes → ℕ
value_from acc [] = acc
value_from acc (c ∷ s) = value_from (acc * 10 + (c - 48)) s

-- Sscanf(s, "%d", &n) at n = 0 and a run of digits: out of range it fails, and leaves n.
unfoldable pub scan_int : Bytes → ℕ
unfolding value_from
scan_int s = let v = value_from 0 s in if ltb v int_bound then v else 0
