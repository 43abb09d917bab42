-- ===== src/Placeholder/Numbers.antt =====
-- The numbers that the placeholders of a text name, before and after renumbering.
use tenantkit.Prelude.{
  ℕ, ◌+◌, ◌<◌, ◌≡◌, ◌≢◌, refl, ap, sym, ◌∙◌, true, false, List, [], ◌∷◌, ◌++◌, map, arith, ltb,
  if◌then◌else◌, length, drop, Bool-cases, inl, inr, append_assoc, length-append, drop-append_left,
  All,
}
use tenantkit.Text.{Bytes}
use tenantkit.Decimal.{is_digit, show, show_int, scan_int, int_bound}
use tenantkit.Decimal.RoundTrip.{show_digits, show-ne-nil, scan_int-show, show_int-show}
use tenantkit.Placeholder.{digit_run, opens, find_all, number, renumber_placeholders, dollar}
use tenantkit.Placeholder.Renumber.{shift_all, renumber-shift_all, number-at}

-- The numbers of the placeholders, from left to right.
unfoldable pub numbers_of : Bytes → List ℕ
numbers_of [] = []
numbers_of (c ∷ s) =
    let rest = numbers_of s in if opens c s then scan_int (digit_run s) ∷ rest else rest

numbers_from :
    (pre s : Bytes) (i : ℕ) → i ≡ length pre → map (number (pre ++ s)) (find_all i s) ≡ numbers_of s
unfolding find_all numbers_of
numbers_from pre [] i e = refl
numbers_from pre (c ∷ s) i e =
    let q = pre ++ c ∷ s in
    let ih : map (number q) (find_all (i + 1) s) ≡ numbers_of s =
      (rw (append_assoc pre (c ∷ []) s) at
        (numbers_from (pre ++ c ∷ []) s (i + 1) (omega (arith, length-append pre (c ∷ []))))) in
    elim (Bool-cases (opens c s)) [
      | inl h ↦ rw (h, map, ih, e, number-at pre c s _ refl)
      | inr h ↦ rw h ih
    ]

-- The numbers of the matches that `countPlaceholders` and `renumberPlaceholders` find.
pub numbers_lem : (s : Bytes) → map (number s) (find_all 0 s) ≡ numbers_of s
numbers_lem s = numbers_from [] s 0 refl

abbrev AllDigits : Bytes → Type 0
AllDigits = All (λ c. is_digit c ≡ true)

digit_run-AllDigits : (s : Bytes) → AllDigits (digit_run s)
unfolding digit_run
digit_run-AllDigits [] = tt
digit_run-AllDigits (c ∷ s) = elim (Bool-cases (is_digit c)) [
  | inl e ↦ rw e (e, digit_run-AllDigits s)
  | inr e ↦ rw e tt
]

digit_run-split :
    (s : Bytes)
    → (s ≡ digit_run s ++ drop (length (digit_run s)) s)
      × (digit_run (drop (length (digit_run s)) s) ≡ [])
unfolding digit_run
digit_run-split [] = (refl, refl)
digit_run-split (c ∷ s) = elim (Bool-cases (is_digit c)) [
  | inl e ↦ rw e (ap (◌∷◌ c) (digit_run-split s).0, (digit_run-split s).1)
  | inr e ↦ rw (e, digit_run) (refl, rw e)
]

digit_run-append : (d t : Bytes) → AllDigits d → digit_run t ≡ [] → digit_run (d ++ t) ≡ d
unfolding digit_run
digit_run-append [] t h e = e
digit_run-append (c ∷ d) t (p, h) e = rw p (ap (◌∷◌ c) (digit_run-append d t h e))

opens-digit : (c : ℕ) (s : Bytes) → is_digit c ≡ true → opens c s ≡ false
opens-digit c s h = ground arith

numbers_of-digits : (d t : Bytes) → AllDigits d → numbers_of (d ++ t) ≡ numbers_of t
unfolding numbers_of
numbers_of-digits [] t h = refl
numbers_of-digits (c ∷ d) t (p, h) = rw (opens-digit c (d ++ t) p) (numbers_of-digits d t h)

not-digit : (c : ℕ) (t : Bytes) → digit_run (c ∷ t) ≡ [] → is_digit c ≡ false
unfolding digit_run
not-digit c t e = ground arith

digit_run-closed : (c : ℕ) (t : Bytes) → is_digit c ≡ false → digit_run (c ∷ t) ≡ []
unfolding digit_run
digit_run-closed c t e = rw e

nil_of_length : (l : Bytes) → ltb 0 (length l) ≡ false → l ≡ []
nil_of_length [] h = refl
nil_of_length (c ∷ l) h = ground arith

pos_of_ne-nil : (l : Bytes) → l ≢ [] → ltb 0 (length l) ≡ true
pos_of_ne-nil [] h = absurd (h refl)
pos_of_ne-nil (c ∷ l) h = ground arith

numbers_of-opens :
    (c : ℕ) (s : Bytes)
    → opens c s ≡ true
    → numbers_of (c ∷ s) ≡ scan_int (digit_run s) ∷ numbers_of s
unfolding numbers_of
numbers_of-opens c s h = rw h

numbers_of-plain : (c : ℕ) (s : Bytes) → opens c s ≡ false → numbers_of (c ∷ s) ≡ numbers_of s
unfolding numbers_of
numbers_of-plain c s h = rw h

-- A printed placeholder in front of a text that begins with no digit.
pub numbers_of-open :
    (n : ℕ) (u : Bytes)
    → n < int_bound
    → digit_run u ≡ []
    → numbers_of ((b'$' ∷ show_int n) ++ u) ≡ n ∷ numbers_of u
numbers_of-open n u h e =
    let run : digit_run (show n ++ u) ≡ show n = digit_run-append (show n) u (show_digits n) e in
    let open_ : opens b'$' (show n ++ u) ≡ true = rw run (pos_of_ne-nil (show n) (show-ne-nil n)) in
    rw (
      show_int-show n h,
      numbers_of-opens _ _ open_,
      run,
      scan_int-show n h,
      numbers_of-digits (show n) u (show_digits n),
    )

module _ (offset : ℕ) where
  shift_all-digits :
      (d t : Bytes) → AllDigits d → shift_all offset (d ++ t) ≡ d ++ shift_all offset t
  unfolding shift_all
  shift_all-digits [] t h = refl
  shift_all-digits (c ∷ d) t (p, h) =
      rw (opens-digit c (d ++ t) p) (ap (◌∷◌ c) (shift_all-digits d t h))

  digit_run-shift_all : (t : Bytes) → digit_run t ≡ [] → digit_run (shift_all offset t) ≡ []
  unfolding shift_all
  digit_run-shift_all [] e = e
  digit_run-shift_all (c ∷ t) e = elim (Bool-cases (opens c t)) [
    | inl h ↦ rw h (digit_run-closed b'$' _ refl)
    | inr h ↦ rw h (digit_run-closed c _ (not-digit c t e))
  ]

  opens-shift_all : (c : ℕ) (s : Bytes) → opens c s ≡ false → opens c (shift_all offset s) ≡ false
  opens-shift_all c s h = elim (Bool-cases (ltb 0 (length (digit_run s)))) [
    | inl e ↦ ground arith
    | inr e ↦ rw (digit_run-shift_all s (nil_of_length _ e)) (ground arith)
  ]

  -- Behind its digits the shifted text is the shifted rest.
  drop-shift_all :
      (s : Bytes)
      → (u : Bytes) × (drop (length (digit_run s)) (shift_all offset s) ≡ u)
        × (digit_run u ≡ [])
        × (numbers_of u ≡ numbers_of (shift_all offset s))
  drop-shift_all s =
      let d = digit_run s in
      let t = drop (length d) s in
      let digits = digit_run-AllDigits s in
      let (parts, closed) = digit_run-split s in
      let shifted : shift_all offset s ≡ d ++ shift_all offset t =
        ap (shift_all offset) parts ∙ shift_all-digits d t digits in
      (
        shift_all offset t,
        ap (drop (length d)) shifted ∙ drop-append_left d (shift_all offset t),
        digit_run-shift_all t closed,
        sym (ap numbers_of shifted ∙ numbers_of-digits d (shift_all offset t) digits),
      )

  open-numbers :
      (s : Bytes) (ns : List ℕ)
      → scan_int (digit_run s) + offset < int_bound
      → numbers_of (shift_all offset s) ≡ ns
      → numbers_of (
          (b'$' ∷ show_int (scan_int (digit_run s) + offset))
          ++ drop (length (digit_run s)) (shift_all offset s))
        ≡ (scan_int (digit_run s) + offset) ∷ ns
  open-numbers s ns h e =
      let (u, behind, closed, same) = drop-shift_all s in
      rw behind
        (numbers_of-open _ u h closed ∙ ap (◌∷◌ (scan_int (digit_run s) + offset)) (same ∙ e))

  numbers-shift_all :
      (s : Bytes)
      → All (λ n. n + offset < int_bound) (numbers_of s)
      → numbers_of (shift_all offset s) ≡ map (λ n. n + offset) (numbers_of s)
  unfolding shift_all
  numbers-shift_all [] h = unfold numbers_of in refl
  numbers-shift_all (c ∷ s) h = elim (Bool-cases (opens c s)) [
    | inl e ↦
        let h' = rw (numbers_of-opens c s e) at h in
        rw (e, numbers_of-opens c s e) (open-numbers s _ h'.0 (numbers-shift_all s h'.1))
    | inr e ↦
        let h' = rw (numbers_of-plain c s e) at h in
        rw (e, numbers_of-plain c s e, numbers_of-plain c _ (opens-shift_all c s e))
          (numbers-shift_all s h')
  ]

-- Renumbering adds the offset to the number of every placeholder, and neither makes nor loses one,
-- if no number reaches 2^63.
pub numbers-renumber :
    (query : Bytes) (offset : ℕ)
    → All (λ n. n + offset < int_bound) (numbers_of query)
    → numbers_of (renumber_placeholders dollar query offset)
      ≡ map (λ n. n + offset) (numbers_of query)
numbers-renumber query offset h =
    rw (renumber-shift_all query offset) (numbers-shift_all offset query h)
