-- ===== src/Tests/Queries.antt =====
-- Queries on a DB with the tenant tables users and orders.
use tenantkit.Tests.{in_order, map_order, shop, acme, deletion, Only, running, Only-IsSafe}
use tenantkit.Prelude.{◌≡◌, refl, true, none, List, [], ◌∷◌, ok, err}
use tenantkit.Database.{query}
use tenantkit.Database.Laws.{IsGuarded, query-refused, executed_select-unscoped}
use tenantkit.Engine.{kind_of, select}
use tenantkit.Inject.{other, text, Statement}
use tenantkit.Interceptor.{missing_tenant}
use tenantkit.Tables.{from_keyword, TableRef}
use tenantkit.TenantContext.{get_tenant, should_bypass, without_tenant_filtering}
use tenantkit.Text.{Bytes, codes, trim_space, to_upper, index}

abbrev renaming : Bytes
renaming = codes "UPDATE users SET name = $1 RETURNING id"

abbrev renamed : Statement
renamed = record {
  query = codes "UPDATE users SET name = $1 WHERE tenant_id = $2 RETURNING id";
  args = other 7 ∷ text (codes "acme") ∷ [];
}

abbrev reading : Bytes
reading =
    codes "SELECT u.name FROM users u JOIN orders o ON u.id = o.user_id WHERE o.id = $1 LIMIT 5"

abbrev read_tables : List TableRef
read_tables =
    record { name = codes "users"; alias = codes "u" }
    ∷ record { name = codes "orders"; alias = codes "o" }
    ∷ []

abbrev read_query : Statement
read_query = record {
  query =
      codes
        "SELECT u.name FROM users u JOIN orders o ON u.id = o.user_id WHERE u.tenant_id = $2 AND o.tenant_id = $3 AND (o.id = $1) LIMIT 5";
  args = other 7 ∷ text (codes "acme") ∷ text (codes "acme") ∷ [];
}

-- FROM stands behind a line break.
abbrev lines : Bytes
lines = codes "SELECT *\nFROM users"

abbrev lines_read : Statement
lines_read = record { query = lines; args = [] }

lines-kind : kind_of (trim_space lines) ≡ select
unfolding running
lines-kind = refl

lines-IsGuarded : IsGuarded shop acme lines
unfolding running
lines-IsGuarded = record { user_query = refl; no_bypass = refl; touches = refl }

lines-run : (query in_order map_order shop acme lines []).1 ≡ ok lines_read
unfolding running
lines-run = refl

lines-index : index (to_upper (trim_space lines)) from_keyword ≡ none
unfolding running
lines-index = refl

executed_select-unscoped_example : lines_read ≡ record { query = trim_space lines; args = [] }
executed_select-unscoped_example =
    executed_select-unscoped in_order map_order shop acme (Only (trim_space lines))
      (Only-IsSafe (trim_space lines) (rw lines-kind (λ e. absurd cc))) tt lines refl [] lines_read
      lines-IsGuarded lines-run lines-kind lines-index

deletion_nowhere-IsGuarded : IsGuarded shop [] deletion
unfolding running
deletion_nowhere-IsGuarded = record { user_query = refl; no_bypass = refl; touches = refl }

nowhere-tenant : (get_tenant []).0 ≡ []
unfolding running
nowhere-tenant = refl

query-refused_example :
    (ts : List Bytes) × (query in_order map_order shop [] deletion []
      ≡ (shop, err (missing_tenant deletion ts)))
query-refused_example =
    query-refused in_order map_order shop [] deletion [] deletion_nowhere-IsGuarded nowhere-tenant

bypassed : should_bypass (without_tenant_filtering acme) ≡ true
unfolding running
bypassed = refl
