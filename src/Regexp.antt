-- ===== src/Regexp.antt =====
-- Go's package regexp, as far as the program uses it: leftmost matches that prefer the first
-- alternative and the longest repetition, with the texts of the groups.
use mathlib.Core.Option
use tenantkit.Prelude.{
  ℕ, zero, suc, ◌-◌, Bool, true, false, not, ◌&&◌, ◌||◌, Option, none, some, List, [], ◌∷◌, leb,
  ◌==◌, if◌then◌else◌, length, take,
}
use tenantkit.Text.{Bytes}

pub data Regex : Type 0 where
  class : (ℕ → Bool) → Regex
  empty boundary end_of_text : Regex
  seq : Regex → Regex → Regex
  alt : Regex → Regex → Regex
  star : Regex → Regex
  group : ℕ → Regex → Regex

-- Where a match stands: the byte before, the bytes that follow, and the groups so far.
pub record Cursor : Type 0 where
  pub before : Option ℕ
  pub rest : Bytes
  pub groups : List (ℕ × Bytes)

abbrev pub is_word : ℕ → Bool
is_word c =
    (leb b'a' c && leb c b'z')
    || ((leb b'A' c && leb c b'Z') || ((leb b'0' c && leb c b'9') || c == b'_'))

-- \s
abbrev pub is_blank : ℕ → Bool
is_blank c = c == 32 || (c == 9 || (c == 10 || (c == 12 || c == 13)))

abbrev word_at : Option ℕ → Bool
word_at none = false
word_at (some c) = is_word c

abbrev head : Bytes → Option ℕ
head [] = none
head (c ∷ s) = some c

abbrev differ : Bool → Bool → Bool
differ true b = not b
differ false b = b

-- One byte of a class.
unfoldable pub step : (ℕ → Bool) → Cursor → Bytes → Option Cursor
step p cur [] = none
step p cur (c ∷ s) =
    if p c then some (record { before = some c; rest = s; groups = cur.groups }) else none

-- Backtracking, with what follows as a continuation. Each repetition takes one unit of the fuel; a
-- repetition takes a byte at least, so the length of the text is enough.
unfoldable pub match_at : ℕ → Regex → Cursor → (Cursor → Option Cursor) → Option Cursor
unfolding step
match_at fuel (class p) cur k = elim (step p cur cur.rest) [ none ↦ none | some next ↦ k next ]
match_at fuel empty cur k = k cur
match_at fuel boundary cur k =
    let go = k cur in if differ (word_at cur.before) (word_at (head cur.rest)) then go else none
match_at fuel end_of_text cur k = elim cur.rest [ [] ↦ k cur | _ ∷ _ ↦ none ]
match_at fuel (seq r s) cur k = match_at fuel r cur (λ next. match_at fuel s next k)
match_at fuel (alt r s) cur k =
    let second = match_at fuel s cur k in
    elim (match_at fuel r cur k) [ some found ↦ some found | none ↦ second ]
match_at zero (star r) cur k = k cur
match_at (suc fuel) (star r) cur k =
    elim (match_at (suc fuel) r cur (λ next. match_at fuel (star r) next k)) [
      | some found ↦ some found
      | none ↦ k cur
    ]
match_at fuel (group i r) cur k = match_at fuel r cur λ next.
    let text = take (length cur.rest - length next.rest) cur.rest in
    k (record next { groups = (i, text) ∷ next.groups })

abbrev pub plus : Regex → Regex
plus r = seq r (star r)

-- r?
abbrev pub opt : Regex → Regex
opt r = alt r empty

-- The expression of a literal text.
abbrev pub literal : Bytes → Regex
literal [] = empty
literal (c ∷ s) = seq (class (λ b. b == c)) (literal s)

-- The first match, by its end and its groups.
unfoldable pub find_first : Regex → Option ℕ → Bytes → Option Cursor
unfolding match_at
find_first r before [] = match_at 1 r (record { before = before; rest = []; groups = [] }) some
find_first r before (c ∷ s) =
    let later = find_first r (some c) s in
    let cursor : Cursor = record { before = before; rest = c ∷ s; groups = [] } in
    elim (match_at (suc (length (c ∷ s))) r cursor some) [ some found ↦ some found | none ↦ later ]

-- FindAllStringSubmatch, for an expression that matches no empty text.
unfoldable pub find_all_from : ℕ → Regex → Option ℕ → Bytes → List (List (ℕ × Bytes))
unfolding find_first
find_all_from zero r before s = []
find_all_from (suc fuel) r before s = elim (find_first r before s) [
  | none ↦ []
  | some found ↦ found.groups ∷ find_all_from fuel r found.before found.rest
]

unfoldable pub find_all_submatch : Regex → Bytes → List (List (ℕ × Bytes))
unfolding find_all_from
find_all_submatch r s = find_all_from (suc (length s)) r none s

-- FindStringSubmatch
unfoldable pub find_submatch : Regex → Bytes → Option (List (ℕ × Bytes))
unfolding find_first
find_submatch r s = Option.map (λ found. found.groups) (find_first r none s)

-- The text of a group, empty if it took no part.
unfoldable pub submatch : ℕ → List (ℕ × Bytes) → Bytes
submatch i [] = []
submatch i ((j, s) ∷ groups) = if j == i then s else submatch i groups
