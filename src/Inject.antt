-- ===== src/Inject.antt =====
-- The rewriting of one query in tenantkit/wrap.go: `injectSelectFilter`, `injectUpdateFilter`,
-- `injectDeleteFilter`, `injectInsertFilter`. The pools of builders and slices are left out, and with them
-- that the arguments returned stand in a slice of the pool.
pub mod Flat
pub mod Places
pub mod Shape
pub mod Args
use mathlib.Core.Option
use tenantkit.Placeholder.{
  PlaceholderStyle, question, dollar, colon, placeholder, renumber_placeholders,
}
use tenantkit.Prelude.{
  ℕ, zero, suc, ◌+◌, ◌-◌, Bool, true, false, ◌||◌, List, [], ◌∷◌, ◌++◌, map, Option, none, some,
  ltb, ◌==◌, if◌then◌else◌, length, take, drop, replicate, any, Result, ok, err, panic, ◌>>=◌,
}
use tenantkit.Tables.{
  Config, TableRef, InjectError, invalid_insert, explicit_columns, invalid_values, where_keyword,
  first_of_all, extract_all_tables, filter_tenant_tables,
}
use tenantkit.Text.{
  Bytes, codes, bytes_eq, to_upper, index, contains, count, trim_space, trim_func, split,
  replace_first,
}

-- An argument of a query, Go's interface{}: a text, or a value known by a number only.
pub data Value : Type 0 where
  text : Bytes → Value
  other : ℕ → Value

-- A query with its arguments, as the driver receives it.
pub record Statement : Type 0 where
  pub query : Bytes
  pub args : List Value

abbrev pub Injected : Type 0
Injected = Result InjectError Statement

abbrev pub returning_keyword : Bytes
returning_keyword = codes " RETURNING "

abbrev pub select_ends : List Bytes
select_ends = map codes (
    " ORDER BY " ∷ " GROUP BY " ∷ " LIMIT " ∷ " HAVING " ∷ " UNION " ∷ " EXCEPT " ∷ " INTERSECT "
    ∷ " FOR UPDATE" ∷ " FOR SHARE" ∷ [])

abbrev pub returning_ends : List Bytes
returning_ends = returning_keyword ∷ []

-- `column = placeholder`
abbrev pub equals : Bytes → Bytes → Bytes
equals column mark = column ++ (codes " = " ++ mark)

-- The text of a query with WHERE at `where_pos`: the filter, and the old conditions in brackets.
unfoldable pub guard_where : Bytes → List Bytes → ℕ → Bytes → Bytes
unfolding first_of_all
guard_where filter end_keywords where_pos query =
    let after_where = drop (where_pos + 7) query in
    let after_where_upper = drop (where_pos + 7) (to_upper query) in
    let where_end = first_of_all after_where_upper end_keywords (length after_where) in
    take (where_pos + 7) query
    ++ (filter
        ++ (codes " AND ("
            ++ (trim_space (take where_end after_where) ++ (b')' ∷ drop where_end after_where))))

-- The text of an UPDATE or a DELETE with the tenant condition.
unfoldable pub guard_text : Bytes → Bytes → Bytes
unfolding guard_where index
guard_text condition query = elim (index (to_upper query) where_keyword) [
  | some where_pos ↦ guard_where condition returning_ends where_pos query
  | none ↦ elim (index (to_upper query) returning_keyword) [
    | some pos ↦ take pos query ++ (codes " WHERE " ++ (condition ++ drop pos query))
    | none ↦ query ++ (codes " WHERE " ++ condition)
  ]
]

-- The arguments of an UPDATE that stand before WHERE.
unfoldable pub set_arg_count : Bytes → ℕ
unfolding index count
set_arg_count query = elim (index (to_upper query) where_keyword) [
  | some where_pos ↦ count b'?' (take where_pos query)
  | none ↦ count b'?' query
]

-- `args[:n]`, the tenant arguments, `args[n:]`; a slice beyond the arguments panics.
unfoldable pub insert_args : ℕ → List Value → List Value → Result InjectError (List Value)
insert_args n tenant_args args =
    if ltb (length args) n then panic else ok (take n args ++ (tenant_args ++ drop n args))

abbrev pub on_conflict_keyword : Bytes
on_conflict_keyword = codes " ON CONFLICT "

abbrev pub insert_keyword : Bytes
insert_keyword = codes "INSERT INTO "

abbrev pub values_keyword : Bytes
values_keyword = codes " VALUES "

-- A trailing clause is cut off at its keyword.
unfoldable pub clause_at : Bytes → Bytes → Bytes × Bytes
unfolding index
clause_at keyword s = elim (index (to_upper s) keyword) [
  | none ↦ (s, [])
  | some pos ↦ (take pos s, drop pos s)
]

-- A position that has to be there.
abbrev pub or_error : InjectError → Option ℕ → Result InjectError ℕ
or_error e none = err e
or_error e (some pos) = ok pos

unfoldable pub select_text : Bytes → Bytes → Bytes
unfolding guard_where index first_of_all
select_text filter query = elim (index (to_upper query) where_keyword) [
  | some where_pos ↦ guard_where filter select_ends where_pos query
  | none ↦
      let insert_pos = first_of_all (to_upper query) select_ends (length query) in
      trim_space (take insert_pos query) ++ (codes " WHERE " ++ (filter ++ drop insert_pos query))
]

-- `columnExistsInList`, of texts in upper case
unfoldable pub column_exists_in_list : Bytes → Bytes → Bool
unfolding trim_func split trim_space bytes_eq
column_exists_in_list column_list column_name =
    any (λ col. bytes_eq (trim_space col) column_name)
      (split (trim_func (λ c. c == b'(' || c == b')') column_list) b',')

-- The tenant arguments before the others for ?, behind them otherwise.
unfoldable pub tenant_first : PlaceholderStyle → List Value → List Value → List Value
tenant_first question tenant_args args = tenant_args ++ args
tenant_first dollar tenant_args args = args ++ tenant_args
tenant_first colon tenant_args args = args ++ tenant_args

-- The tenant argument between those of SET and those of WHERE for ?, behind them otherwise.
unfoldable pub update_args :
    PlaceholderStyle → Bytes → Bytes → List Value → Result InjectError (List Value)
unfolding insert_args set_arg_count
update_args question tenant_id query args =
    insert_args (set_arg_count query) (text tenant_id ∷ []) args
update_args dollar tenant_id query args = ok (args ++ text tenant_id ∷ [])
update_args colon tenant_id query args = ok (args ++ text tenant_id ∷ [])

module _ (config : Config) (style : PlaceholderStyle) where
  -- `users.tenant_id = $2 AND o.tenant_id = $3`
  unfoldable pub conditions : ℕ → List TableRef → Bytes
  unfolding bytes_eq placeholder
  conditions next [] = []
  conditions next (table ∷ tables) =
      let name = if bytes_eq table.alias [] then table.name else table.alias in
      let condition = equals (name ++ (b'.' ∷ config.tenant_column)) (placeholder style next) in
      let more = codes " AND " ++ conditions (suc next) tables in
      elim tables [ [] ↦ condition | _ ∷ _ ↦ condition ++ more ]

  -- The renumbered values, with the tenant placeholder in the first row.
  unfoldable pub insert_values : Bytes → Bytes
  unfolding replace_first placeholder
  insert_values = replace_first b'(' (b'(' ∷ (placeholder style 1 ++ codes ", "))

  -- `INSERT INTO table (tenant_id, …) VALUES ($1, …)`
  unfoldable pub insert_text : Bytes → Bytes → Bytes → Bytes
  unfolding trim_space replace_first insert_values clause_at
  insert_text table_name column_list renumbered =
      let (new_values, returning_clause) = clause_at returning_keyword (insert_values renumbered) in
      let (values, on_conflict_clause) = clause_at on_conflict_keyword new_values in
      codes "INSERT INTO "
      ++ (trim_space table_name
          ++ (b' '
              ∷ (replace_first b'(' (b'(' ∷ (config.tenant_column ++ codes ", ")) column_list
                  ++ (codes " VALUES " ++ (values ++ (on_conflict_clause ++ returning_clause))))))

module _ (config : Config) (style : PlaceholderStyle) (tenant_id : Bytes) where
  -- The query with the filters of its tenant tables.
  unfoldable pub filter_select : List TableRef → Bytes → List Value → ℕ → Statement
  unfolding conditions tenant_first select_text
  filter_select [] query args existing = record { query = query; args = args }
  filter_select (table ∷ tables) query args existing = record {
    query = select_text (conditions config style (suc existing) (table ∷ tables)) query;
    args = tenant_first style (replicate (length (table ∷ tables)) (text tenant_id)) args;
  }

  unfoldable pub inject_select : Bytes → List Value → ℕ → Injected
  unfolding extract_all_tables filter_tenant_tables filter_select
  inject_select query args existing = do
    all_tables ← extract_all_tables query
    ok (filter_select (filter_tenant_tables config all_tables) query args existing)

  unfoldable pub inject_update : Bytes → List Value → ℕ → Injected
  unfolding guard_text placeholder update_args
  inject_update query args existing = do
    new_args ← update_args style tenant_id query args
    ok (record {
      query = guard_text (equals config.tenant_column (placeholder style (suc existing))) query;
      args = new_args;
    })

  unfoldable pub inject_delete : Bytes → List Value → ℕ → Injected
  unfolding guard_text placeholder tenant_first
  inject_delete query args existing = ok (record {
    query = guard_text (equals config.tenant_column (placeholder style (suc existing))) query;
    args = tenant_first style (text tenant_id ∷ []) args;
  })

  -- The table part, whose column list begins at `paren_pos`, and the values part.
  unfoldable pub insert_parts : Statement → Bytes → Bytes → ℕ → Injected
  unfolding column_exists_in_list to_upper insert_text renumber_placeholders contains
  insert_parts statement table_part values_part paren_pos =
      let column_list = drop paren_pos table_part in
      let renumbered = renumber_placeholders style values_part 1 in
      let result : Statement = record {
        query = insert_text config style (take paren_pos table_part) column_list renumbered;
        args = text tenant_id ∷ statement.args;
      } in
      if column_exists_in_list (to_upper column_list) (to_upper config.tenant_column)
      then ok statement
      else if contains renumbered (codes "(")
      then ok result
      else err invalid_values

  unfoldable pub inject_insert : Bytes → List Value → Injected
  unfolding insert_parts index to_upper
  inject_insert query args = do
    insert_pos ← or_error invalid_insert (index (to_upper query) insert_keyword)
    values_pos ← or_error explicit_columns (index (to_upper query) values_keyword)
    let start = insert_pos + 12
    table_part ←
        if ltb values_pos start then panic else ok (take (values_pos - start) (drop start query))
    paren_pos ← or_error explicit_columns (index table_part (codes "("))
    insert_parts (record { query = query; args = args }) table_part (drop (values_pos + 8) query)
        paren_pos
