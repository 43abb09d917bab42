-- ===== src/Interceptor.antt =====
-- tenantkit/interceptor.go: whether a query has to be filtered. `ExtractTables` returns no error, so
-- the branch for one is left out; of an error beside a decision the callers read the error alone.
pub mod Laws
use tenantkit.Prelude.{
  ℕ, zero, suc, ◌+◌, ◌-◌, ◌*◌, ◌/◌, ◌%◌, ◌^◌, ◌≤◌, ◌<◌, min, ◌≡◌, refl, sym, ap, ◌∙◌, subst, ◌≢◌,
  ◌↔◌, ◌⊎◌, inl, inr, Bool, true, false, not, ◌&&◌, ◌||◌, Option, none, some, List, [], ◌∷◌, ◌++◌,
  map, foldr, reverse, append-nil, append_assoc, arith, ltb, leb, ◌==◌, if◌then◌else◌, Bool-cases,
  Option-cases, length, get_elem?, take, drop, replicate, any, All, length-append, take-append-drop,
  length-take, length-drop, length-replicate, take-append_left, drop-append_left,
  get_elem?-append_at, All-append, length-map, Result, ok, err, panic, ◌>>=◌, ok-injective,
  >>=-eq-ok, ℤ, pos, negsuc, is_negative, is_at_most_zero, magnitude,
}
use tenantkit.Text.{Bytes, codes, bytes_eq, to_lower}
use tenantkit.Tables.{Config, InjectError}
use tenantkit.Detector.{is_system_query}
use tenantkit.TenantContext.{get_tenant, should_bypass}
use tenantkit.Domain.{GoContext}
use tenantkit.Extractor.{extract_tables, KeyOrder}

pub data DecisionReason : Type 0 where
  system_query explicit_bypass no_tenant_tables tenant_table_access : DecisionReason

pub record Decision : Type 0 where
  pub requires_filtering : Bool
  pub reason : DecisionReason
  pub tenant_id : Bytes
  pub extracted_tables : List Bytes
  pub tenant_tables : List Bytes

-- TenantError with ErrMissingTenant, and the failed rewriting of wrap.go.
pub data QueryError : Type 0 where
  missing_tenant : Bytes → List Bytes → QueryError
  inject_failed : InjectError → QueryError

pub data ConfigError : Type 0 where
  nil_database tenant_tables_empty : ConfigError

pub record Interceptor : Type 0 where
  pub config : Config
  pub tenant_table_map : List Bytes

abbrev pub default_column : Bytes
default_column = codes "tenant_id"

unfoldable pub new_interceptor : Config → Result ConfigError Interceptor
unfolding to_lower bytes_eq
new_interceptor config = elim config.tenant_tables [
  | [] ↦ err tenant_tables_empty
  | _ ∷ _ ↦ ok (record {
    config = record config {
      tenant_column =
          if bytes_eq config.tenant_column [] then default_column else config.tenant_column;
    };
    tenant_table_map = map to_lower config.tenant_tables;
  })
]

-- `i.tenantTableMap[strings.ToLower(table)]`
unfoldable pub is_tenant_name : Interceptor → Bytes → Bool
unfolding bytes_eq to_lower
is_tenant_name i table = any (bytes_eq (to_lower table)) i.tenant_table_map

unfoldable pub tenant_tables_among : Interceptor → List Bytes → List Bytes
unfolding is_tenant_name
tenant_tables_among i [] = []
tenant_tables_among i (table ∷ tables) =
    let rest = tenant_tables_among i tables in if is_tenant_name i table then table ∷ rest else rest

abbrev bypass : DecisionReason → List Bytes → Result QueryError Decision
bypass reason tables = ok (record {
  requires_filtering = false;
  reason = reason;
  tenant_id = [];
  extracted_tables = tables;
  tenant_tables = [];
})

-- The end of `ShouldFilter`, once the tenant tables of the query are known.
unfoldable pub decide_tables :
    GoContext → Bytes → List Bytes → List Bytes → Result QueryError Decision
decide_tables ctx query tables [] = bypass no_tenant_tables tables
decide_tables ctx query tables (t ∷ ts) =
    let (tenant_id, found) = get_tenant ctx in
    if not found || bytes_eq tenant_id []
    then err (missing_tenant query (t ∷ ts))
    else ok (record {
      requires_filtering = true;
      reason = tenant_table_access;
      tenant_id = tenant_id;
      extracted_tables = tables;
      tenant_tables = t ∷ ts;
    })

-- Without tables there are no tenant tables, so the early return gives what the end gives.
unfoldable pub should_filter :
    KeyOrder → Interceptor → GoContext → Bytes → Result QueryError Decision
should_filter order i ctx query =
    let tables = extract_tables order query in
    let decision = decide_tables ctx query tables (tenant_tables_among i tables) in
    if is_system_query query
    then bypass system_query []
    else if should_bypass ctx
    then bypass explicit_bypass []
    else decision
