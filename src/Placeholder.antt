-- ===== src/Placeholder.antt =====
-- Placeholders of tenantkit/wrap.go: the styles, `countPlaceholders`, `placeholder` and
-- `renumberPlaceholders`, with the matches of the expression \$(\d+).
pub mod Renumber
pub mod Numbers
use tenantkit.Prelude.{
  ℕ, zero, suc, ◌+◌, ◌-◌, Bool, true, false, ◌&&◌, List, [], ◌∷◌, ◌++◌, map, foldr, ltb, leb, ◌==◌,
  if◌then◌else◌, length, take, drop,
}
use tenantkit.Decimal.{is_digit, show_int, scan_int}
use tenantkit.Text.{Bytes, count}

pub data PlaceholderStyle : Type 0 where
  question dollar colon : PlaceholderStyle

-- One match: its ends, and those of its digits.
pub record Match : Type 0 where
  pub start : ℕ
  pub stop : ℕ
  pub num_start : ℕ
  pub num_stop : ℕ

-- `s[a:b]`
unfoldable pub slice : Bytes → ℕ → ℕ → Bytes
slice s a b = take (b - a) (drop a s)

-- The longest run of digits that the text begins with.
unfoldable pub digit_run : Bytes → Bytes
digit_run [] = []
digit_run (c ∷ s) = let rest = digit_run s in if is_digit c then c ∷ rest else []

abbrev pub opens : ℕ → Bytes → Bool
opens c s = c == b'$' && ltb 0 (length (digit_run s))

-- FindAllStringSubmatchIndex over a text that begins at position `i`.
unfoldable pub find_all : ℕ → Bytes → List Match
unfolding digit_run
find_all i [] = []
find_all i (c ∷ s) =
    let rest = find_all (i + 1) s in
    let stop = i + 1 + length (digit_run s) in
    if opens c s
    then record { start = i; stop = stop; num_start = i + 1; num_stop = stop } ∷ rest
    else rest

-- The number of a match.
unfoldable pub number : Bytes → Match → ℕ
unfolding slice scan_int
number query m = scan_int (slice query m.num_start m.num_stop)

-- The loop of `countPlaceholders`: the greatest number so far.
unfoldable pub greatest : ℕ → List ℕ → ℕ
greatest max_n [] = max_n
greatest max_n (n ∷ ns) = greatest (if ltb max_n n then n else max_n) ns

unfoldable pub count_placeholders : PlaceholderStyle → Bytes → ℕ
unfolding find_all number greatest count
count_placeholders dollar query = greatest 0 (map (number query) (find_all 0 query))
count_placeholders question query = count b'?' query
count_placeholders colon query = 0

unfoldable pub placeholder : PlaceholderStyle → ℕ → Bytes
unfolding show_int
placeholder dollar position = b'$' ∷ show_int position
placeholder colon position = b':' ∷ show_int position
placeholder question position = b'?' ∷ []

-- One round of the loop of `renumberPlaceholders`.
unfoldable pub replace_match : Bytes → ℕ → Match → Bytes → Bytes
unfolding number show_int
replace_match query offset m result =
    take m.start result ++ ((b'$' ∷ show_int (number query m + offset)) ++ drop m.stop result)

-- The loop runs from the last match to the first.
unfoldable pub renumber_placeholders : PlaceholderStyle → Bytes → ℕ → Bytes
unfolding find_all replace_match
renumber_placeholders dollar query offset =
    foldr (replace_match query offset) query (find_all 0 query)
renumber_placeholders question query offset = query
renumber_placeholders colon query offset = query
