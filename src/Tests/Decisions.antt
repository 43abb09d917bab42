-- ===== src/Tests/Decisions.antt =====
-- Decisions, tenants and their ids.
use tenantkit.Prelude.{◌≤◌, ◌≡◌, refl, true, false, none, [], ◌∷◌, ◌++◌, All, ok}
use tenantkit.Tests.{in_order, shop, acme, deletion, running}
use tenantkit.Database.{Db, wrap}
use tenantkit.Detector.{is_system_query}
use tenantkit.Detector.Laws.{marker-is_system_query, is_marker}
use tenantkit.Domain.{
  TenantId, Context, tenant_id_key, value_of, new_tenant_id, validate_tenant_id, matches_id,
  new_context,
}
use tenantkit.Domain.Laws.{IsIdByte, new_tenant_id-IsIdByte}
use tenantkit.Interceptor.{
  Decision, should_filter, tenant_table_access, default_column, new_interceptor,
}
use tenantkit.Interceptor.Laws.{Touches, IsDecided, touching-IsDecided}
use tenantkit.QueryCache.{new_query_cache}
use tenantkit.Tables.{Config}
use tenantkit.TenantContext.{should_bypass}
use tenantkit.Text.{Bytes, codes, trim_space, bytes_eq, to_lower}
use tenantkit.Placeholder.{dollar}

abbrev kept : Decision
kept = record {
  requires_filtering = true;
  reason = tenant_table_access;
  tenant_id = codes "acme";
  extracted_tables = codes "users" ∷ [];
  tenant_tables = codes "users" ∷ [];
}

deletion-decided : should_filter in_order shop.interceptor acme deletion ≡ ok kept
unfolding running
deletion-decided = refl

deletion-user : is_system_query deletion ≡ false
unfolding running
deletion-user = refl

acme-filtered : should_bypass acme ≡ false
unfolding running
acme-filtered = refl

deletion-Touches : Touches shop.interceptor deletion
unfolding running
deletion-Touches = refl

touching-IsDecided_example :
    IsDecided acme deletion (should_filter in_order shop.interceptor acme deletion)
touching-IsDecided_example =
    touching-IsDecided in_order shop.interceptor acme deletion deletion-user acme-filtered
      deletion-Touches

-- A name that holds a marker of the system schemas.
abbrev literal_query : Bytes
literal_query = codes "SELECT * FROM users WHERE note = 'SYS.admin'"

literal-trimmed :
    trim_space literal_query
    ≡ codes "SELECT * FROM users WHERE note = '" ++ (codes "SYS." ++ codes "admin'")
unfolding running
literal-trimmed = refl

literal-is_marker : is_marker (codes "SYS.") ≡ true
unfolding running
literal-is_marker = refl

marker-is_system_query_example : is_system_query literal_query ≡ true
marker-is_system_query_example =
    marker-is_system_query literal_query (codes "SELECT * FROM users WHERE note = '") (codes "SYS.")
      (codes "admin'") literal-trimmed (λ e. absurd cc) literal-is_marker

abbrev bare_config : Config
bare_config = record { tenant_tables = codes "users" ∷ []; tenant_column = [] }

abbrev bare : Db
bare = record {
  interceptor = record {
    config = record bare_config { tenant_column = default_column };
    tenant_table_map = codes "users" ∷ [];
  };
  config = bare_config;
  style = dollar;
  cache = record { entries = []; max_size = 1000; hits = 0; misses = 0 };
}

bare-run : wrap true bare_config ≡ ok bare
unfolding running wrap new_interceptor new_query_cache
bare-run = refl

abbrev acme_id : TenantId
acme_id = record { value = codes "acme-1" }

acme-run : new_tenant_id (codes "Acme-1") ≡ ok acme_id
unfolding new_tenant_id validate_tenant_id matches_id to_lower
acme-run = refl

new_tenant_id-IsIdByte_example : (1 ≤ 6) × (6 ≤ 255) × All IsIdByte (codes "acme-1")
new_tenant_id-IsIdByte_example = new_tenant_id-IsIdByte (codes "Acme-1") acme_id acme-run

abbrev request : Context
request = record {
  tenant_id = acme_id;
  user_id = codes "u1";
  request_id = codes "r1";
  timestamp = 5;
}

request-run : new_context 5 (codes "Acme-1") (codes "u1") (codes "r1") ≡ ok request
unfolding new_context new_tenant_id validate_tenant_id matches_id to_lower bytes_eq
request-run = refl

no_string : value_of [] tenant_id_key ≡ none
unfolding value_of
no_string = refl
