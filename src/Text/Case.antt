-- ===== src/Text/Case.antt =====
-- Case conversion: the length stays, and it goes through concatenation and cutting.
use tenantkit.Prelude.{
  ℕ, ◌≡◌, refl, ap, [], ◌∷◌, ◌++◌, arith, length, drop, take, length-map, map-drop, map-take, ◌==◌,
}
use tenantkit.Text.{Bytes, upper_byte, lower_byte, to_upper, to_lower, count}

pub length-to_upper : (s : Bytes) → length (to_upper s) ≡ length s
unfolding to_upper
length-to_upper s = length-map upper_byte s

pub to_upper-drop : (n : ℕ) (s : Bytes) → to_upper (drop n s) ≡ drop n (to_upper s)
unfolding to_upper
to_upper-drop n s = mathlib.Core.Path.sym (map-drop upper_byte n s)

pub to_upper-take : (n : ℕ) (s : Bytes) → to_upper (take n s) ≡ take n (to_upper s)
unfolding to_upper
to_upper-take n s = mathlib.Core.Path.sym (map-take upper_byte n s)

pub to_upper-append : (s t : Bytes) → to_upper (s ++ t) ≡ to_upper s ++ to_upper t
unfolding to_upper
to_upper-append [] t = refl
to_upper-append (c ∷ s) t = ap (◌∷◌ (upper_byte c)) (to_upper-append s t)

pub to_lower-append : (s t : Bytes) → to_lower (s ++ t) ≡ to_lower s ++ to_lower t
unfolding to_lower
to_lower-append [] t = refl
to_lower-append (c ∷ s) t = ap (◌∷◌ (lower_byte c)) (to_lower-append s t)

lower_byte_idem : (c : ℕ) → lower_byte (lower_byte c) ≡ lower_byte c
unfolding lower_byte
lower_byte_idem c = ground arith

pub to_lower_idem : (s : Bytes) → to_lower (to_lower s) ≡ to_lower s
unfolding to_lower
to_lower_idem [] = refl
to_lower_idem (c ∷ s) = mathlib.Core.Path.ap₂ ◌∷◌ (lower_byte_idem c) (to_lower_idem s)

-- A byte that is no letter occurs as often in upper case.
pub count-to_upper : (s : Bytes) → count b'?' (to_upper s) ≡ count b'?' s
unfolding to_upper upper_byte count
count-to_upper [] = refl
count-to_upper (c ∷ s) = ground (arith, count-to_upper s)

pub to_lower-take : (n : ℕ) (s : Bytes) → to_lower (take n s) ≡ take n (to_lower s)
unfolding to_lower
to_lower-take n s = mathlib.Core.Path.sym (map-take lower_byte n s)

lower_byte-mark : (c : ℕ) → (lower_byte c == b'?') ≡ (c == b'?')
unfolding lower_byte
lower_byte-mark c = ground arith

pub count-to_lower : (s : Bytes) → count b'?' (to_lower s) ≡ count b'?' s
unfolding count to_lower
count-to_lower [] = refl
count-to_lower (c ∷ s) = rw (lower_byte-mark c, count-to_lower s) refl
