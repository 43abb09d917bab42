-- ===== src/Placeholder/Renumber.antt =====
-- `renumberPlaceholders` against a description in one pass from left to right.
use native.Mathlib.Nat.{suc-add, zero-add, add_assoc}
use native.Mathlib.Numerals.{one-add}
use tenantkit.Prelude.{
  ℕ, ◌+◌, ◌-◌, ◌≡◌, refl, ap, [], ◌∷◌, ◌++◌, foldr, arith, if◌then◌else◌, length, take, drop,
  Bool-cases, inl, inr, append_assoc, length-append, take-append_left,
}
use tenantkit.Text.{Bytes}
use tenantkit.Decimal.{is_digit, show_int, scan_int}
use tenantkit.Placeholder.{
  slice, digit_run, opens, find_all, number, replace_match, renumber_placeholders, dollar,
}

-- The text with the offset added to each of its placeholders.
unfoldable pub shift_all : ℕ → Bytes → Bytes
shift_all offset [] = []
shift_all offset (c ∷ s) =
    let rest = shift_all offset s in
    if opens c s
    then (b'$' ∷ show_int (scan_int (digit_run s) + offset)) ++ drop (length (digit_run s)) rest
    else c ∷ rest

take-digit_run : (s : Bytes) → take (length (digit_run s)) s ≡ digit_run s
unfolding digit_run
take-digit_run [] = refl
take-digit_run (c ∷ s) = elim (Bool-cases (is_digit c)) [
  | inl e ↦ rw e (ap (◌∷◌ c) (take-digit_run s))
  | inr e ↦ rw e
]

drop-append : (n : ℕ) (xs ys : Bytes) → drop (length xs + n) (xs ++ ys) ≡ drop n ys
drop-append n [] ys = rw zero-add
drop-append n (x ∷ xs) ys = rw suc-add (drop-append n xs ys)

-- The digits of a match that begins behind `pre`.
pub number-at :
    (pre : Bytes) (c : ℕ) (s : Bytes) (stop : ℕ)
    → stop ≡ length pre + 1 + length (digit_run s)
    → number
        (pre ++ c ∷ s)
        (record { start = length pre; stop = stop; num_start = length pre + 1; num_stop = stop })
      ≡ scan_int (digit_run s)
unfolding number slice
number-at pre c s stop e = rw (e, drop-append 1 pre (c ∷ s), width, take-digit_run s)
  where
    width : length pre + 1 + length (digit_run s) - (length pre + 1) ≡ length (digit_run s)
    width = omega arith

replace-at :
    (offset : ℕ) (pre : Bytes) (c : ℕ) (s rest : Bytes) (stop : ℕ)
    → stop ≡ length pre + 1 + length (digit_run s)
    → replace_match
        (pre ++ c ∷ s)
        offset
        (record { start = length pre; stop = stop; num_start = length pre + 1; num_stop = stop })
        (pre ++ c ∷ rest)
      ≡ pre
        ++ ((b'$' ∷ show_int (scan_int (digit_run s) + offset)) ++ drop (length (digit_run s)) rest)
unfolding replace_match
replace-at offset pre c s rest stop e =
    rw (number-at pre c s stop e, take-append_left pre (c ∷ rest), behind)
  where
    behind : drop stop (pre ++ c ∷ rest) ≡ drop (length (digit_run s)) rest
    behind = rw (e, add_assoc, drop-append _ pre (c ∷ rest), one-add) refl

renumber_from :
    (offset : ℕ) (pre s : Bytes) (i : ℕ)
    → i ≡ length pre
    → foldr (replace_match (pre ++ s) offset) (pre ++ s) (find_all i s) ≡ pre ++ shift_all offset s
unfolding find_all shift_all
renumber_from offset pre [] i e = refl
renumber_from offset pre (c ∷ s) i e =
    let q = pre ++ c ∷ s in
    let ih : foldr (replace_match q offset) q (find_all (i + 1) s) ≡ pre ++ c ∷ shift_all offset s =
      (rw (append_assoc pre (c ∷ []) s, append_assoc pre (c ∷ []) (shift_all offset s)) at
        (renumber_from offset (pre ++ c ∷ []) s (i + 1)
          (omega (arith, length-append pre (c ∷ []))))) in
    elim (Bool-cases (opens c s)) [
      | inl h ↦ rw (h, foldr, ih, e) (replace-at offset pre c s _ _ refl)
      | inr h ↦ rw h ih
    ]

-- Replacing the matches from the last to the first is adding the offset to every placeholder in one
-- pass over the text: no replacement moves the ends of a match that is still to be replaced.
pub renumber-shift_all :
    (query : Bytes) (offset : ℕ)
    → renumber_placeholders dollar query offset ≡ shift_all offset query
unfolding renumber_placeholders
renumber-shift_all query offset = renumber_from offset [] query 0 refl
