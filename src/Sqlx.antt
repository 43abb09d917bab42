-- ===== src/Sqlx.antt =====
-- The adapter of adapters/sqlx: what it does to a query's text. adapter.go and transaction.go hold the
-- same functions, for the DB and the Tx. A query of the library sqlx is the statement that it is given.
pub mod Handle
pub mod Laws
use tenantkit.Prelude.{
  ℕ, zero, suc, ◌+◌, ◌-◌, ◌*◌, ◌/◌, ◌%◌, ◌^◌, ◌≤◌, ◌<◌, min, ◌≡◌, refl, sym, ap, ◌∙◌, subst, ◌≢◌,
  ◌↔◌, ◌⊎◌, inl, inr, Bool, true, false, not, ◌&&◌, ◌||◌, Option, none, some, List, [], ◌∷◌, ◌++◌,
  map, foldr, reverse, append-nil, append_assoc, arith, ltb, leb, ◌==◌, if◌then◌else◌, Bool-cases,
  Option-cases, length, get_elem?, take, drop, replicate, any, All, length-append, take-append-drop,
  length-take, length-drop, length-replicate, take-append_left, drop-append_left,
  get_elem?-append_at, All-append, length-map, Result, ok, err, panic, ◌>>=◌, ok-injective,
  >>=-eq-ok, ℤ, pos, negsuc, is_negative, is_at_most_zero, magnitude,
}
use tenantkit.Domain.{
  GoContext, DomainError, Context, Any, from_go_context, value_of, boolean, sqlx_skip_key,
}
use tenantkit.Inject.{Value, text, Statement}
use tenantkit.Text.{
  Bytes, codes, bytes_eq, to_lower, has_prefix, contains, index, count, trim_space, trim_suffix,
}

pub record Config : Type 0 where
  pub tenant_column : Bytes
  pub skip_tables : List Bytes

-- What the DB and the Tx both hold. The set of tables is a list.
pub record Scope : Type 0 where
  pub tenant_column : Bytes
  pub skip_tables : List Bytes

-- A nil configuration is `none`.
unfoldable pub new : Option Config → Scope
unfolding bytes_eq
new none = record { tenant_column = codes "tenant_id"; skip_tables = [] }
new (some cfg) = record {
  tenant_column = if bytes_eq cfg.tenant_column [] then codes "tenant_id" else cfg.tenant_column;
  skip_tables = cfg.skip_tables;
}

pub data QueryError : Type 0 where
  nil_context : QueryError
  no_tenant : DomainError → QueryError

unfoldable pub tenant_id_of : Result DomainError Context → Result QueryError Bytes
tenant_id_of (ok tenant) = ok tenant.tenant_id.value
tenant_id_of (err e) = err (no_tenant e)
tenant_id_of panic = panic

unfoldable pub get_tenant_id : Option GoContext → Result QueryError Bytes
unfolding tenant_id_of from_go_context
get_tenant_id none = err nil_context
get_tenant_id (some ctx) = tenant_id_of (from_go_context (some ctx))

unfoldable pub insert_arg_at_position : List Value → ℕ → Bytes → Result QueryError (List Value)
insert_arg_at_position args place tenant_id =
    if ltb (length args) place
    then panic
    else ok (take place args ++ (text tenant_id ∷ drop place args))

-- `skip, ok := v.(bool); ok && skip`
unfoldable pub is_set : Option Any → Bool
is_set (some (boolean b)) = b
is_set _ = false

-- A skipped table may stand anywhere in the query.
unfoldable pub should_skip : Scope → GoContext → Bytes → Bool
unfolding is_set value_of contains to_lower
should_skip scope ctx query =
    is_set (value_of ctx sqlx_skip_key)
    || any (λ table. contains (to_lower query) (to_lower table)) scope.skip_tables

abbrev pub condition_of : Scope → Bytes
condition_of scope = scope.tenant_column ++ codes " = ?"

abbrev pub tail_keywords : List Bytes
tail_keywords = map codes ("order by" ∷ "limit" ∷ "offset" ∷ "group by" ∷ "having" ∷ [])

-- The loop over the keywords, which keeps the least position.
unfoldable pub insert_place : Bytes → List Bytes → ℕ → ℕ
unfolding index
insert_place lower [] place = place
insert_place lower (kw ∷ kws) place =
    insert_place lower kws
      (elim (index lower kw) [ none ↦ place | some p ↦ if ltb p place then p else place ])

abbrev pub where_word : Bytes
where_word = codes "where"

-- The query and the place of the tenant id among the arguments.
unfoldable pub inject_tenant_condition : Scope → Bytes → Bytes × ℕ
unfolding index to_lower count insert_place
inject_tenant_condition scope query = elim (index (to_lower query) where_word) [
  | some where_pos ↦ (
    take (where_pos + 5) query
        ++ (codes " " ++ (condition_of scope ++ (codes " AND" ++ drop (where_pos + 5) query))),
    count b'?' (take where_pos query),
  )
  | none ↦
      let place = insert_place (to_lower query) tail_keywords (length query) in
      (
        take place query
            ++ (codes " WHERE " ++ (condition_of scope ++ (codes " " ++ drop place query))),
        count b'?' query,
      )
]

-- `VALUES (...)`: the list of columns and the table are given, and what follows VALUES.
unfoldable pub insert_values : Scope → Bytes → Bytes → Bytes → Bytes → Bytes
unfolding index has_prefix
insert_values scope query table_name column_list after_values =
    if has_prefix after_values (codes "(")
    then elim (index after_values (codes ")")) [
      | none ↦ query
      | some placeholder_end ↦
          codes "INSERT INTO "
          ++ (table_name
              ++ (codes " ("
                  ++ (column_list
                      ++ (codes ", "
                          ++ (scope.tenant_column
                              ++ (codes ") VALUES ("
                                  ++ (drop 1 (take placeholder_end after_values)
                                      ++ (codes ", ?"
                                          ++ (codes ")"
                                              ++ drop (placeholder_end + 1) after_values)))))))))
    ]
    else query

-- strings.SplitN at the first bracket: the table and the columns.
unfoldable pub insert_between : Scope → Bytes → Bytes → Bytes → Bytes
unfolding index trim_space trim_suffix insert_values
insert_between scope query between after_values = elim (index (trim_space between) (codes "(")) [
  | none ↦ query
  | some p ↦
      insert_values scope query (trim_space (take p (trim_space between)))
        (trim_suffix (trim_space (drop (p + 1) (trim_space between))) (codes ")"))
        (trim_space after_values)
]

-- `query[insertPos+11:valuesPos]` panics where VALUES stands before the end of INSERT INTO.
unfoldable pub inject_tenant_into_insert : Scope → Bytes → Result QueryError Bytes
unfolding index to_lower insert_between
inject_tenant_into_insert scope query = elim (index (to_lower query) (codes "values")) [
  | none ↦ ok query
  | some values_pos ↦ elim (index (to_lower query) (codes "insert into")) [
    | none ↦ ok query
    | some insert_pos ↦
        if ltb values_pos (insert_pos + 11)
        then panic
        else ok (
            insert_between scope query (drop (insert_pos + 11) (take values_pos query))
              (drop (values_pos + 6) query))
  ]
]
