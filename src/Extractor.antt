-- ===== src/Extractor.antt =====
-- tenantkit/table_extractor.go: the names of the tables of a query, by regular expressions.
pub mod Laws
pub mod Tests
use mathlib.Core.List.{Permᴰ}
use tenantkit.Prelude.{
  ℕ, zero, suc, ◌+◌, ◌-◌, ◌*◌, ◌/◌, ◌%◌, ◌^◌, ◌≤◌, ◌<◌, min, ◌≡◌, refl, sym, ap, ◌∙◌, subst, ◌≢◌,
  ◌↔◌, ◌⊎◌, inl, inr, Bool, true, false, not, ◌&&◌, ◌||◌, Option, none, some, List, [], ◌∷◌, ◌++◌,
  map, foldr, reverse, append-nil, append_assoc, arith, ltb, leb, ◌==◌, if◌then◌else◌, Bool-cases,
  Option-cases, length, get_elem?, take, drop, replicate, any, All, length-append, take-append-drop,
  length-take, length-drop, length-replicate, take-append_left, drop-append_left,
  get_elem?-append_at, All-append, length-map, Result, ok, err, panic, ◌>>=◌, ok-injective,
  >>=-eq-ok, ℤ, pos, negsuc, is_negative, is_at_most_zero, magnitude,
}
use tenantkit.Regexp.{
  Regex, class, boundary, end_of_text, seq, alt, star, group, plus, opt, literal, is_word, is_blank,
  find_all_submatch, find_submatch, submatch, match_at, Cursor,
}
use tenantkit.Text.{Bytes, codes, bytes_eq, to_lower, trim_space, split}

-- `regexp.MustCompile(`\s+`).ReplaceAllString(s, " ")`; `blank` is set behind a white space.
unfoldable pub collapse_from : Bool → Bytes → Bytes
collapse_from blank [] = []
collapse_from blank (c ∷ s) =
    let next = collapse_from (is_blank c) s in
    if is_blank c then (if blank then next else 32 ∷ next) else c ∷ next

unfoldable pub collapse : Bytes → Bytes
unfolding collapse_from
collapse = collapse_from false

-- \s+ and \w+
abbrev spaces : Regex
spaces = plus (class is_blank)

abbrev word : Regex
word = plus (class is_word)

-- (?:(\w+)\.)?(\w+)
abbrev pub table : Regex
table = seq (opt (seq (group 1 word) (literal (codes ".")))) (group 2 word)

-- (?:\s+(?:as\s+)?(\w+))?
abbrev alias : Regex
alias = opt (seq spaces (seq (opt (seq (literal (codes "as")) spaces)) (group 3 word)))

-- \bfrom\s+
abbrev from_word : Regex
from_word = seq boundary (seq (literal (codes "from")) spaces)

abbrev from_pattern : Regex
from_pattern = seq from_word (seq table alias)

-- (?:inner\s+|left\s+|right\s+|outer\s+|cross\s+)?
abbrev join_kind : Regex
join_kind = opt (
    alt (seq (literal (codes "inner")) spaces) (
      alt (seq (literal (codes "left")) spaces) (
        alt (seq (literal (codes "right")) spaces)
          (alt (seq (literal (codes "outer")) spaces) (seq (literal (codes "cross")) spaces)))))

abbrev join_pattern : Regex
join_pattern =
    seq boundary (seq join_kind (seq (literal (codes "join")) (seq spaces (seq table alias))))

abbrev insert_pattern : Regex
insert_pattern =
    seq boundary (
      seq (literal (codes "insert")) (seq spaces (seq (literal (codes "into")) (seq spaces table))))

abbrev update_pattern : Regex
update_pattern = seq boundary (seq (literal (codes "update")) (seq spaces table))

abbrev delete_pattern : Regex
delete_pattern =
    seq boundary (
      seq (literal (codes "delete")) (seq spaces (seq (literal (codes "from")) (seq spaces table))))

-- \w+(?:\.\w+)?\s*(?:as\s+\w+)?,?\s*
abbrev list_item : Regex
list_item = seq word (
    seq (opt (seq (literal (codes ".")) word)) (
      seq (star (class is_blank)) (
        seq (opt (seq (literal (codes "as")) (seq spaces word)))
          (seq (opt (literal (codes ","))) (star (class is_blank))))))

-- (?:\s+where|\s+order|\s+group|\s+limit|$)
abbrev list_end : Regex
list_end = alt (seq spaces (literal (codes "where"))) (
    alt (seq spaces (literal (codes "order"))) (
      alt (seq spaces (literal (codes "group")))
        (alt (seq spaces (literal (codes "limit"))) end_of_text)))

abbrev comma_pattern : Regex
comma_pattern = seq from_word (seq (group 1 (plus list_item)) list_end)

-- `tables[name] = true`
unfoldable pub add_name : Bytes → List Bytes → List Bytes
unfolding bytes_eq
add_name name tables = if any (bytes_eq name) tables then tables else tables ++ name ∷ []

-- A loop over the matches of a pattern.
unfoldable pub add_matches : List (List (ℕ × Bytes)) → List Bytes → List Bytes
unfolding add_name submatch
add_matches [] tables = tables
add_matches (m ∷ ms) tables = add_matches ms (add_name (submatch 2 m) tables)

-- The expression ^(?:(\w+)\.)?(\w+), which is tried at the beginning only.
unfoldable pub add_part : Bytes → List Bytes → List Bytes
add_part part tables =
    let trimmed = trim_space part in
    let cursor : Cursor = record { before = none; rest = trimmed; groups = [] } in
    elim (match_at (suc (length trimmed)) table cursor some) [
      | none ↦ tables
      | some found ↦ add_name (submatch 2 found.groups) tables
    ]

unfoldable pub add_parts : List Bytes → List Bytes → List Bytes
unfolding add_part
add_parts [] tables = tables
add_parts (part ∷ parts) tables = add_parts parts (add_part part tables)

unfoldable pub add_list : Option (List (ℕ × Bytes)) → List Bytes → List Bytes
unfolding add_parts submatch split
add_list none tables = tables
add_list (some m) tables = add_parts (split (submatch 1 m) b',') tables

-- The keys of the map `tables`, in the order in which they are found.
unfoldable pub tables_of : Bytes → List Bytes
tables_of query =
    let lower = to_lower (collapse (trim_space query)) in
    if bytes_eq (trim_space query) []
    then []
    else add_list (find_submatch comma_pattern lower) (
        add_matches (find_all_submatch delete_pattern lower) (
          add_matches (find_all_submatch update_pattern lower) (
            add_matches (find_all_submatch insert_pattern lower) (
              add_matches (find_all_submatch join_pattern lower)
                (add_matches (find_all_submatch from_pattern lower) [])))))

-- The order in which Go ranges over the map is any order of its keys.
pub record KeyOrder : Type 0 where
  pub visit : List Bytes → List Bytes
  pub visit_perm : (keys : List Bytes) → Permᴰ (visit keys) keys

unfoldable pub extract_tables : KeyOrder → Bytes → List Bytes
unfolding tables_of
extract_tables order query = order.visit (tables_of query)
