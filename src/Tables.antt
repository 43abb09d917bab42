-- ===== src/Tables.antt =====
-- The table references of a SELECT, tenantkit/wrap.go: `extractAllTables`, `parseTableRef` and
-- `filterTenantTables`. A position of -1 is `none`.
pub mod Fuel
use mathlib.Core.Option
use tenantkit.Prelude.{
  ℕ, Result, ok, err, panic, zero, suc, ◌+◌, ◌-◌, Bool, true, false, ◌&&◌, List, [], ◌∷◌, ◌++◌, map,
  Option, none, some, ltb, if◌then◌else◌, length, take, drop, any,
}
use tenantkit.Text.{
  Bytes, codes, bytes_eq, to_upper, to_lower, equal_fold, index, trim_space, trim_suffix, fields,
  last_index,
}

-- The errors of the rewriting.
pub data InjectError : Type 0 where
  invalid_insert explicit_columns invalid_values : InjectError

-- The configuration, which tenantkit/interceptor.go declares; the logger is left out.
pub record Config : Type 0 where
  pub tenant_tables : List Bytes
  pub tenant_column : Bytes

pub record TableRef : Type 0 where
  pub name : Bytes
  pub alias : Bytes

-- `pos != -1 && pos < end`: the new end
unfoldable pub earlier : Option ℕ → ℕ → ℕ
earlier none stop = stop
earlier (some pos) stop = if ltb pos stop then pos else stop

-- A loop over keywords that looks for the first position of any, below an end.
unfoldable pub first_of_all : Bytes → List Bytes → ℕ → ℕ
unfolding earlier index
first_of_all upper [] stop = stop
first_of_all upper (k ∷ ks) stop = first_of_all upper ks (earlier (index upper k) stop)

-- Such a loop over positions counted from `base`.
unfoldable pub first_from : ℕ → Bytes → List Bytes → ℕ → ℕ
unfolding earlier index
first_from base upper [] stop = stop
first_from base upper (k ∷ ks) stop =
    first_from base upper ks (earlier (Option.map (λ pos. base + pos) (index upper k)) stop)

abbrev pub from_keyword : Bytes
from_keyword = codes " FROM "

abbrev pub where_keyword : Bytes
where_keyword = codes " WHERE "

abbrev end_markers : List Bytes
end_markers = map codes (" ORDER BY " ∷ " GROUP BY " ∷ " LIMIT " ∷ " HAVING " ∷ " UNION " ∷ [])

abbrev pub join_keywords : List Bytes
join_keywords = map codes (
    " LEFT OUTER JOIN " ∷ " RIGHT OUTER JOIN " ∷ " FULL OUTER JOIN " ∷ " LEFT JOIN "
    ∷ " RIGHT JOIN " ∷ " INNER JOIN " ∷ " CROSS JOIN " ∷ " NATURAL JOIN " ∷ " JOIN " ∷ [])

-- The parts of a reference that `strings.Fields` has cut.
unfoldable pub table_of_parts : List Bytes → TableRef
unfolding equal_fold
table_of_parts [] = record { name = []; alias = [] }
table_of_parts (name ∷ []) = record { name = name; alias = [] }
table_of_parts (name ∷ second ∷ []) = record { name = name; alias = second }
table_of_parts (name ∷ second ∷ third ∷ _) = record {
  name = name;
  alias = if equal_fold second (codes "AS") then third else second;
}

unfoldable pub parse_table_ref : Bytes → TableRef
unfolding trim_space trim_suffix fields table_of_parts
parse_table_ref ref = table_of_parts (fields (trim_suffix (trim_space ref) (codes ",")))

-- A reference with an empty name is not recorded.
unfoldable pub add_table : TableRef → List TableRef → List TableRef
unfolding bytes_eq
add_table table rest = if bytes_eq table.name [] then rest else table ∷ rest

-- The keyword search of the loop: the nearest join, with the keyword that is found there.
unfoldable pub next_join : Bytes → List Bytes → ℕ × Option Bytes → ℕ × Option Bytes
unfolding index
next_join upper [] best = best
next_join upper (k ∷ ks) (stop, found) = next_join upper ks (elim (index upper k) [
  | none ↦ (stop, found)
  | some pos ↦ if ltb pos stop then (pos, some k) else (stop, found)
])

-- Where the reference behind a join ends, and where the text behind its condition begins.
unfoldable pub table_end : Bytes → Bytes → ℕ
unfolding index first_of_all
table_end after_join after_join_upper =
    first_of_all after_join_upper join_keywords
      (Option.get_or (index after_join_upper (codes " ON ")) (length after_join))

unfoldable pub rest_start : Bytes → Bytes → ℕ
unfolding index first_from table_end
rest_start after_join after_join_upper = elim (index after_join_upper (codes " ON ")) [
  | some on_pos ↦ first_from on_pos (drop on_pos after_join_upper) join_keywords (length after_join)
  | none ↦ table_end after_join after_join_upper
]

-- One round of the `for` loop over the joins; `rest` is the rounds that follow.
unfoldable pub join_round :
    (Bytes → Bytes → Option (List TableRef))
    → Bytes
    → Bytes
    → ℕ × Option Bytes
    → Option (List TableRef)
unfolding table_end rest_start parse_table_ref add_table
join_round rest remaining remaining_upper (pos, none) = some []
join_round rest remaining remaining_upper (pos, some keyword) =
    let after_join = drop (pos + length keyword) remaining in
    let after_upper = drop (pos + length keyword) remaining_upper in
    let start = rest_start after_join after_upper in
    let ref = trim_space (take (table_end after_join after_upper) after_join) in
    Option.map (add_table (parse_table_ref ref))
      (rest (drop start after_join) (drop start after_upper))

-- The loop, with fuel: each round drops at least the keyword. A loop that has not stopped when the fuel
-- is used up gives `none`.
unfoldable pub joined_tables : ℕ → Bytes → Bytes → Option (List TableRef)
unfolding join_round next_join
joined_tables zero remaining remaining_upper = none
joined_tables (suc fuel) remaining remaining_upper =
    join_round (joined_tables fuel) remaining remaining_upper
      (next_join remaining_upper join_keywords (length remaining, none))

-- The references of the section between FROM and the end of the table list.
unfoldable pub section_tables : Bytes → Bytes → Option (List TableRef)
unfolding first_of_all joined_tables parse_table_ref add_table
section_tables from_section from_upper =
    let first_join = first_of_all from_upper join_keywords (length from_section) in
    Option.map (add_table (parse_table_ref (trim_space (take first_join from_section))))
      (joined_tables (suc (length from_section)) from_section from_upper)

-- Where the table list ends, for a FROM at a position.
unfoldable pub list_end : Bytes → ℕ → ℕ
unfolding index first_from
list_end upper from_pos =
    first_from from_pos (drop from_pos upper) end_markers
      (Option.get_or (index upper where_keyword) (length upper))

-- `query[fromPos+6:endPos]` panics if the end stands before the beginning. A loop that does not stop
-- would stand as a panic too; Tables.Fuel is about that.
unfoldable pub extract_all_tables : Bytes → Result InjectError (List TableRef)
unfolding index list_end section_tables
extract_all_tables query =
    let upper = to_upper query in
    elim (index upper from_keyword) [
      | none ↦ ok []
      | some from_pos ↦
          let start = from_pos + 6 in
          let width = list_end upper from_pos - start in
          let tables =
            section_tables (take width (drop start query)) (take width (drop start upper)) in
          if ltb (list_end upper from_pos) start
          then panic
          else elim tables [ none ↦ panic | some found ↦ ok found ]
    ]

-- The name of a table in lower case, without its schema.
unfoldable pub base_name : Bytes → Bytes
unfolding to_lower last_index
base_name name =
    let lower = to_lower name in
    elim (last_index lower b'.') [ none ↦ lower | some dot ↦ drop (dot + 1) lower ]

unfoldable pub is_tenant_table : Config → TableRef → Bool
unfolding base_name equal_fold
is_tenant_table config table =
    any (λ tenant_table. equal_fold tenant_table (base_name table.name)) config.tenant_tables

unfoldable pub filter_tenant_tables : Config → List TableRef → List TableRef
unfolding is_tenant_table
filter_tenant_tables config [] = []
filter_tenant_tables config (table ∷ tables) =
    let rest = filter_tenant_tables config tables in
    if is_tenant_table config table then table ∷ rest else rest
