-- ===== src/Decimal/RoundTrip.antt =====
-- What is printed is scanned back, and is a run of digits.
use tenantkit.Prelude.{
  ℕ, zero, suc, ◌+◌, ◌-◌, ◌*◌, ◌/◌, ◌%◌, ◌<◌, ◌≡◌, ◌≢◌, refl, true, [], ◌∷◌, ◌++◌, ltb, arith, All,
  All-append, Bool-cases, inl, inr,
}
use mathlib.Core.List.{concat-ne-nil}
use tenantkit.Text.{Bytes}
use tenantkit.Decimal.{int_bound, is_digit, show_fuel, show, show_int, value_from, scan_int}

value_from-append :
    (acc : ℕ) (s t : Bytes) → value_from acc (s ++ t) ≡ value_from (value_from acc s) t
unfolding value_from
value_from-append acc [] t = refl
value_from-append acc (c ∷ s) t = value_from-append (acc * 10 + (c - 48)) s t

value-show_fuel : (f n : ℕ) → n < f → value_from 0 (show_fuel f n) ≡ n
unfolding show_fuel value_from
value-show_fuel zero n h = absurd (omega arith)
value-show_fuel (suc f) n h = ground (
  arith,
  value-show_fuel f (n / 10),
  value_from-append 0 (show_fuel f (n / 10)) ((48 + n % 10) ∷ []),
)

show_fuel-digits : (f n : ℕ) → All (λ c. is_digit c ≡ true) (show_fuel f n)
unfolding show_fuel
show_fuel-digits zero n = tt
show_fuel-digits (suc f) n = elim (Bool-cases (ltb n 10)) [
  | inl e ↦ rw e (ground arith, tt)
  | inr e ↦ rw e (All-append _ (show_fuel f (n / 10)) _ (show_fuel-digits f (n / 10)) (last n, tt))
]
  where
    last : (n : ℕ) → is_digit (48 + n % 10) ≡ true
    last n = ground arith

pub show_digits : (n : ℕ) → All (λ c. is_digit c ≡ true) (show n)
unfolding show
show_digits n = show_fuel-digits (suc n) n

pub show-ne-nil : (n : ℕ) → show n ≢ []
unfolding show show_fuel
show-ne-nil n = elim (Bool-cases (ltb n 10)) [
  | inl e ↦ rw e (cc)
  | inr e ↦ rw e (concat-ne-nil _ (show_fuel n (n / 10)))
]

pub scan_int-show : (n : ℕ) → n < int_bound → scan_int (show n) ≡ n
unfolding scan_int show
scan_int-show n h = ground (arith, value-show_fuel (suc n) n)

pub show_int-show : (n : ℕ) → n < int_bound → show_int n ≡ show n
unfolding show_int
show_int-show n h = ground arith
