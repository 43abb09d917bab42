-- ===== src/Enforcer.antt =====
-- adapters/sql/enforcer.go: the enforcer that writes the tenant id into the text of a query. What
-- `fmt.Errorf` wraps is kept as the error itself.
pub mod Laws
use tenantkit.Prelude.{
  ℕ, ◌+◌, Bool, ◌||◌, Option, none, some, List, [], ◌∷◌, ◌++◌, map, if◌then◌else◌, take, drop,
  Result, ok, err, panic, ◌>>=◌,
}
use tenantkit.Domain.{GoContext, Context, DomainError, from_go_context}
use tenantkit.Inject.{Value}
use tenantkit.Tables.{where_keyword}
use tenantkit.Text.{
  Bytes, codes, bytes_eq, to_upper, to_lower, has_prefix, contains, index, trim_space,
}

pub record Enforcer : Type 0 where
  pub tenant_column : Bytes

pub data EnforceError : Type 0 where
  context_failed : DomainError → EnforceError
  empty_query : EnforceError
  dangerous_operation : Bytes → EnforceError

unfoldable pub new_enforcer : Enforcer
new_enforcer = record { tenant_column = codes "tenant_id" }

unfoldable pub new_enforcer_with_column : Bytes → Enforcer
new_enforcer_with_column column = record { tenant_column = column }

abbrev pub dangerous : List Bytes
dangerous = map codes ("DROP TABLE" ∷ "DROP DATABASE" ∷ "TRUNCATE" ∷ "ALTER TABLE" ∷ [])

-- The loop over the dangerous operations.
unfoldable pub first_dangerous : Bytes → List Bytes → Result EnforceError (Unit {0})
unfolding contains
first_dangerous upper [] = ok tt
first_dangerous upper (d ∷ ds) =
    let rest = first_dangerous upper ds in
    if contains upper d then err (dangerous_operation d) else rest

unfoldable pub validate_query : Bytes → Result EnforceError (Unit {0})
validate_query query =
    if bytes_eq query []
    then err empty_query
    else first_dangerous (to_upper (trim_space query)) dangerous

unfoldable pub supported_operations : List Bytes
supported_operations = map codes ("SELECT" ∷ "INSERT" ∷ "UPDATE" ∷ "DELETE" ∷ [])

abbrev pub clause_keywords : List Bytes
clause_keywords = map codes (" ORDER BY " ∷ " GROUP BY " ∷ " LIMIT " ∷ " HAVING " ∷ [])

-- The loop over the keywords: the first of them in the list that occurs, not the first in the query.
unfoldable pub before_clause : Bytes → Bytes → Bytes → List Bytes → Bytes
unfolding index
before_clause condition query upper [] = query ++ (codes " WHERE " ++ condition)
before_clause condition query upper (kw ∷ kws) =
    let rest = before_clause condition query upper kws in
    elim (index upper kw) [
      | some p ↦ take p query ++ (codes " WHERE " ++ (condition ++ drop p query))
      | none ↦ rest
    ]

-- The condition in front of the whole rest of the query, with what the branch does without WHERE.
unfoldable pub with_condition : Bytes → Bytes → Bytes → Bytes → Bytes
unfolding index trim_space
with_condition condition query upper otherwise = elim (index upper where_keyword) [
  | some where_pos ↦
      take (where_pos + 7) query
      ++ (condition ++ (codes " AND (" ++ (trim_space (drop (where_pos + 7) query) ++ codes ")")))
  | none ↦ otherwise
]

-- `upper` is of the trimmed query, and its positions are used in the query.
unfoldable pub rewrite_query : Enforcer → Bytes → Bytes → Bytes
unfolding has_prefix
rewrite_query e query tenant_id =
    let upper = to_upper (trim_space query) in
    let condition = e.tenant_column ++ (codes " = '" ++ (tenant_id ++ codes "'")) in
    if has_prefix upper (codes "SELECT") || has_prefix upper (codes "DELETE")
    then with_condition condition query upper (before_clause condition query upper clause_keywords)
    else if has_prefix upper (codes "UPDATE")
    then with_condition condition query upper (query ++ (codes " WHERE " ++ condition))
    else query

-- The rewritten query; the arguments are returned as they are.
unfoldable pub enforce_context :
    Enforcer
    → Result DomainError Context
    → Bytes
    → List Value
    → Result EnforceError (Bytes × List Value)
enforce_context e (err error) query args = err (context_failed error)
enforce_context e panic query args = panic
enforce_context e (ok tenant) query args = do
  _ ← validate_query query
  ok (rewrite_query e query tenant.tenant_id.value, args)

unfoldable pub enforce_query :
    Enforcer → Option GoContext → Bytes → List Value → Result EnforceError (Bytes × List Value)
unfolding from_go_context
enforce_query e ctx query args = enforce_context e (from_go_context ctx) query args

-- The text that follows the first occurrence of a text of one byte.
unfoldable pub after_byte : ℕ → Bytes → Option Bytes
unfolding index
after_byte c s = elim (index s (c ∷ [])) [ none ↦ none | some i ↦ some (drop (i + 1) s) ]

-- The text between the first two quotes; a text of no quotes or one gives "".
unfoldable pub quoted : Bytes → Bytes
unfolding index after_byte
quoted s = elim (after_byte b'\'' s) [
  | none ↦ []
  | some rest ↦ elim (index rest (b'\'' ∷ [])) [ none ↦ [] | some i ↦ take i rest ]
]

unfoldable pub extract_tenant_id_from_query : Enforcer → Bytes → Bytes
unfolding to_lower index after_byte quoted
extract_tenant_id_from_query e query =
    let lower = to_lower query in
    elim (index lower e.tenant_column) [
      | none ↦ []
      | some idx ↦ elim (after_byte b'=' (drop idx lower)) [ none ↦ [] | some rest ↦ quoted rest ]
    ]

unfoldable pub verify_tenant_isolation : Enforcer → Bytes → Bytes → Bool
unfolding extract_tenant_id_from_query bytes_eq
verify_tenant_isolation e query expected_tenant_id =
    bytes_eq (extract_tenant_id_from_query e query) expected_tenant_id
