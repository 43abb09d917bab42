-- ===== src/Sqlx/Handle.antt =====
-- adapters/sqlx: the methods of the DB (adapter.go) and the Tx (transaction.go) that the adapter
-- overrides, each as what it passes to the library sqlx. A nil context is `none`.
use tenantkit.Prelude.{
  ℕ, Bool, true, Option, none, some, List, [], ◌∷◌, ◌++◌, if◌then◌else◌, Result, ok, err, panic,
  ◌>>=◌,
}
use tenantkit.Domain.{
  GoContext, DomainError, new_context, to_go_context, with_value, boolean, sqlx_skip_key,
}
use tenantkit.Inject.{Value, text, Statement}
use tenantkit.Sqlx.{
  Scope, QueryError, get_tenant_id, insert_arg_at_position, should_skip, inject_tenant_condition,
  inject_tenant_into_insert,
}
use tenantkit.Text.{Bytes, codes, to_lower, has_prefix, trim_space}

pub record Tx : Type 0 where
  pub scope : Scope
  pub ctx : Option GoContext

abbrev pub statement : Bytes → List Value → Statement
statement query args = record { query = query; args = args }

-- Adds the tenant's condition and argument.
unfoldable pub with_condition : Scope → Bytes → List Value → Bytes → Result QueryError Statement
unfolding inject_tenant_condition insert_arg_at_position
with_condition scope query args tenant_id =
    let (new_query, place) = inject_tenant_condition scope query in
    (do new_args ← insert_arg_at_position args place tenant_id; ok (statement new_query new_args))

unfoldable pub scoped : Scope → Option GoContext → Bytes → List Value → Result QueryError Statement
unfolding should_skip get_tenant_id with_condition
scoped scope none query args = panic
scoped scope (some ctx) query args =
    if should_skip scope ctx query
    then ok (statement query args)
    else (get_tenant_id (some ctx) >>= with_condition scope query args)

-- The row that is asked for where there is no tenant.
abbrev pub no_row : Statement
no_row = statement (codes "SELECT 1 WHERE 1=0") []

unfoldable pub or_no_row : Result QueryError Statement → Result QueryError Statement
or_no_row (ok s) = ok s
or_no_row (err e) = ok no_row
or_no_row panic = panic

-- An INSERT gets its tenant id as its last argument.
unfoldable pub with_tenant_value : Scope → Bytes → List Value → Bytes → Result QueryError Statement
unfolding inject_tenant_into_insert
with_tenant_value scope query args tenant_id = do
  new_query ← inject_tenant_into_insert scope query
  ok (statement new_query (args ++ (text tenant_id ∷ [])))

unfoldable pub scoped_exec :
    Scope → Option GoContext → Bytes → List Value → Result QueryError Statement
unfolding should_skip get_tenant_id with_condition with_tenant_value has_prefix trim_space to_lower
scoped_exec scope none query args = panic
scoped_exec scope (some ctx) query args =
    if should_skip scope ctx query then ok (statement query args) else (do
      tenant_id ← get_tenant_id (some ctx)
      if has_prefix (trim_space (to_lower query)) (codes "insert")
          then with_tenant_value scope query args tenant_id
          else with_condition scope query args tenant_id)

-- A named query is not changed; `arg` stands for its struct or map.
unfoldable pub scoped_named : Scope → Option GoContext → Bytes → Value → Result QueryError Statement
unfolding should_skip get_tenant_id
scoped_named scope none query arg = panic
scoped_named scope (some ctx) query arg =
    if should_skip scope ctx query
    then ok (statement query (arg ∷ []))
    else (do _ ← get_tenant_id (some ctx); ok (statement query (arg ∷ [])))

unfoldable pub query_context :
    Scope → Option GoContext → Bytes → List Value → Result QueryError Statement
query_context db ctx query args = scoped db ctx query args

unfoldable pub queryx_context :
    Scope → Option GoContext → Bytes → List Value → Result QueryError Statement
queryx_context db ctx query args = scoped db ctx query args

unfoldable pub query_rowx_context :
    Scope → Option GoContext → Bytes → List Value → Result QueryError Statement
unfolding or_no_row
query_rowx_context db ctx query args = or_no_row (scoped db ctx query args)

unfoldable pub get_context :
    Scope → Option GoContext → Bytes → List Value → Result QueryError Statement
get_context db ctx query args = scoped db ctx query args

unfoldable pub select_context :
    Scope → Option GoContext → Bytes → List Value → Result QueryError Statement
select_context db ctx query args = scoped db ctx query args

unfoldable pub exec_context :
    Scope → Option GoContext → Bytes → List Value → Result QueryError Statement
exec_context db ctx query args = scoped_exec db ctx query args

unfoldable pub named_exec_context :
    Scope → Option GoContext → Bytes → Value → Result QueryError Statement
named_exec_context db ctx query arg = scoped_named db ctx query arg

-- `begun` is false where the library's BeginTxx fails.
unfoldable pub begin_txx : Bool → Scope → Option GoContext → Option Tx
begin_txx begun db ctx = if begun then some (record { scope = db; ctx = ctx }) else none

-- The methods of the Tx read the tenant from the context of BeginTxx, not from their own.
unfoldable pub tx_query_context :
    Tx → Option GoContext → Bytes → List Value → Result QueryError Statement
tx_query_context tx ctx query args = scoped tx.scope tx.ctx query args

unfoldable pub tx_queryx_context :
    Tx → Option GoContext → Bytes → List Value → Result QueryError Statement
tx_queryx_context tx ctx query args = scoped tx.scope tx.ctx query args

unfoldable pub tx_query_rowx_context :
    Tx → Option GoContext → Bytes → List Value → Result QueryError Statement
unfolding or_no_row
tx_query_rowx_context tx ctx query args = or_no_row (scoped tx.scope tx.ctx query args)

unfoldable pub tx_get_context :
    Tx → Option GoContext → Bytes → List Value → Result QueryError Statement
tx_get_context tx ctx query args = scoped tx.scope tx.ctx query args

unfoldable pub tx_select_context :
    Tx → Option GoContext → Bytes → List Value → Result QueryError Statement
tx_select_context tx ctx query args = scoped tx.scope tx.ctx query args

unfoldable pub tx_exec_context :
    Tx → Option GoContext → Bytes → List Value → Result QueryError Statement
tx_exec_context tx ctx query args = scoped_exec tx.scope tx.ctx query args

unfoldable pub tx_named_exec_context :
    Tx → Option GoContext → Bytes → Value → Result QueryError Statement
tx_named_exec_context tx ctx query arg = scoped_named tx.scope tx.ctx query arg

unfoldable pub without_tenant : Scope → Scope
without_tenant db = record db { skip_tables = codes "*" ∷ [] }

unfoldable pub skip_tenant : GoContext → GoContext
skip_tenant ctx = with_value ctx sqlx_skip_key (boolean true)

-- `now` is the reading of the clock.
unfoldable pub with_tenant : ℕ → GoContext → Bytes → Result DomainError GoContext
unfolding new_context to_go_context
with_tenant now ctx tenant_id = do
  tc ← new_context now tenant_id (codes "system") (codes "sqlx-adapter")
  ok (to_go_context tc ctx)
