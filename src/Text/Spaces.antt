-- ===== src/Text/Spaces.antt =====
-- Trimming keeps every byte that is not trimmed.
use tenantkit.Prelude.{ℕ, ◌≡◌, refl, Bool, false, [], ◌∷◌, ◌++◌, reverse, arith}
use mathlib.Core.List.{reverse-cons}
use tenantkit.Text.{Bytes, count, is_space, trim_left, trim_func, trim_space}
use tenantkit.Text.Search.{count-append}

count-concat : (b c : ℕ) (s : Bytes) → count b (s ++ c ∷ []) ≡ count b (c ∷ s)
unfolding count
count-concat b c s = omega (arith, count-append b s (c ∷ []))

count-cons : (b c : ℕ) (s t : Bytes) → count b s ≡ count b t → count b (c ∷ s) ≡ count b (c ∷ t)
unfolding count
count-cons b c s t h = rw h

count-reverse : (b : ℕ) (s : Bytes) → count b (reverse s) ≡ count b s
count-reverse b [] = refl
count-reverse b (c ∷ s) =
    rw (reverse-cons, count-concat) (count-cons b c (reverse s) s (count-reverse b s))

count-trim_left :
    (p : ℕ → Bool) (b : ℕ) (s : Bytes) → p b ≡ false → count b (trim_left p s) ≡ count b s
unfolding count trim_left
count-trim_left p b [] h = refl
count-trim_left p b (c ∷ s) h = ground (arith, count-trim_left p b s h)

-- A byte that is no white space occurs as often after strings.TrimSpace.
pub count-trim_space : (b : ℕ) (s : Bytes) → is_space b ≡ false → count b (trim_space s) ≡ count b s
unfolding trim_space trim_func
count-trim_space b s h = grind (arith, count-reverse, count-trim_left)
