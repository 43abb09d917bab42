-- ===== src/Extractor/Laws.antt =====
-- The result of the extraction is a set.
use tenantkit.Prelude.{
  ℕ, suc, ◌≡◌, refl, inl, inr, false, Option, none, some, List, [], ◌∷◌, ◌++◌, arith, Bool-cases,
  length, any,
}
use tenantkit.Text.{Bytes, bytes_eq, split, trim_space}
use tenantkit.Text.Equality.{bytes_eq_iff}
use tenantkit.Extractor.{add_matches, add_list, tables_of, add_part, add_parts, add_name, table}
use tenantkit.Regexp.{submatch, Cursor, match_at}

-- No text stands twice in the list.
abbrev pub IsDistinct : List Bytes → Type 0
IsDistinct [] = Unit
IsDistinct (x ∷ xs) = (any (bytes_eq x) xs ≡ false) × IsDistinct xs

any-concat :
    (x name : Bytes) (xs : List Bytes)
    → any (bytes_eq x) xs ≡ false
    → bytes_eq x name ≡ false
    → any (bytes_eq x) (xs ++ name ∷ []) ≡ false
any-concat x name [] h k = rw k
any-concat x name (y ∷ ys) h k = ground (arith, any-concat x name ys)

IsDistinct-concat :
    (name : Bytes) (xs : List Bytes)
    → any (bytes_eq name) xs ≡ false
    → IsDistinct xs
    → IsDistinct (xs ++ name ∷ [])
IsDistinct-concat name [] h d = (refl, tt)
IsDistinct-concat name (x ∷ xs) h (new, d) = (
  any-concat x name xs new (ground (arith, bytes_eq_iff x name, bytes_eq_iff name x)),
  IsDistinct-concat name xs (ground arith) d,
)

add_name-IsDistinct :
    (name : Bytes) (xs : List Bytes) → IsDistinct xs → IsDistinct (add_name name xs)
unfolding add_name
add_name-IsDistinct name xs d = elim (Bool-cases (any (bytes_eq name) xs)) [
  | inl old ↦ rw old d
  | inr new ↦ rw new (IsDistinct-concat name xs new d)
]

add_matches-IsDistinct :
    (ms : List (List (ℕ × Bytes))) (xs : List Bytes)
    → IsDistinct xs
    → IsDistinct (add_matches ms xs)
unfolding add_matches
add_matches-IsDistinct [] xs d = d
add_matches-IsDistinct (m ∷ ms) xs d =
    add_matches-IsDistinct ms (add_name (submatch 2 m) xs) (add_name-IsDistinct (submatch 2 m) xs d)

add_part-IsDistinct :
    (part : Bytes) (xs : List Bytes) → IsDistinct xs → IsDistinct (add_part part xs)
unfolding add_part
add_part-IsDistinct part xs d = go (
    match_at (suc (length (trim_space part))) table
      (record { before = none; rest = trim_space part; groups = [] }) some)
  where
    go :
        (found : Option Cursor)
        → IsDistinct (elim found [ none ↦ xs | some found ↦ add_name (submatch 2 found.groups) xs ])
    go none = d
    go (some found) = add_name-IsDistinct (submatch 2 found.groups) xs d

add_parts-IsDistinct :
    (parts : List Bytes) (xs : List Bytes) → IsDistinct xs → IsDistinct (add_parts parts xs)
unfolding add_parts
add_parts-IsDistinct [] xs d = d
add_parts-IsDistinct (part ∷ parts) xs d =
    add_parts-IsDistinct parts (add_part part xs) (add_part-IsDistinct part xs d)

add_list-IsDistinct :
    (found : Option (List (ℕ × Bytes))) (xs : List Bytes)
    → IsDistinct xs
    → IsDistinct (add_list found xs)
unfolding add_list
add_list-IsDistinct none xs d = d
add_list-IsDistinct (some m) xs d = add_parts-IsDistinct (split (submatch 1 m) b',') xs d

-- No table is reported twice, whatever the query.
pub tables_of-IsDistinct : (query : Bytes) → IsDistinct (tables_of query)
unfolding tables_of
tables_of-IsDistinct query = elim (Bool-cases (bytes_eq (trim_space query) [])) [
  | inl e ↦ rw e tt
  | inr e ↦ rw e (
      add_list-IsDistinct _ _ (
        add_matches-IsDistinct _ _ (
          add_matches-IsDistinct _ _ (
            add_matches-IsDistinct _ _
              (add_matches-IsDistinct _ _ (add_matches-IsDistinct _ [] tt))))))
]
