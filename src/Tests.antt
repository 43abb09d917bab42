-- ===== src/Tests.antt =====
-- Concrete inputs, and what the runs on them open.
pub mod Queries
pub mod Decisions
pub mod Caching
pub mod Limits
pub mod Arguments
pub mod Sliding
pub mod Quotas
pub mod Sql
pub mod Web
pub mod Shared
use tenantkit.Prelude.{
  ℕ, zero, suc, ◌+◌, ◌-◌, ◌*◌, ◌/◌, ◌%◌, ◌^◌, ◌≤◌, ◌<◌, min, ◌≡◌, refl, sym, ap, ◌∙◌, subst, ◌≢◌,
  ◌↔◌, ◌⊎◌, inl, inr, Bool, true, false, not, ◌&&◌, ◌||◌, Option, none, some, List, [], ◌∷◌, ◌++◌,
  map, foldr, reverse, append-nil, append_assoc, arith, ltb, leb, ◌==◌, if◌then◌else◌, Bool-cases,
  Option-cases, length, get_elem?, take, drop, replicate, any, All, length-append, take-append-drop,
  length-take, length-drop, length-replicate, take-append_left, drop-append_left,
  get_elem?-append_at, All-append, length-map, Result, ok, err, panic, ◌>>=◌, ok-injective,
  >>=-eq-ok, ℤ, pos, negsuc, is_negative, is_at_most_zero, magnitude,
}
use mathlib.Core.List.Permᴰ
use tenantkit.Assoc.{lookup}
use tenantkit.Database.{Db, query, rewrite, wrap_error, wrap}
use tenantkit.Database.Laws.{
  IsGuarded, query-refused, query-bypassed, executed_select-unscoped, wrap-empty_column,
  tenant_condition,
}
use tenantkit.Domain.{GoContext, tenant_id_key, bypass_key, string, boolean, value_of, same_key}
use tenantkit.Engine.{
  inject_tenant_filter, kind_of, select, update, delete, inject_kind, on_found, on_miss, store,
  insert,
}
use tenantkit.Engine.Transparent.{IsSafe, IsSound}
use tenantkit.Extractor.{
  KeyOrder, tables_of, extract_tables, collapse, add_matches, add_list, add_part, add_name,
}
use tenantkit.Inject.{
  Value, other, text, Statement, inject_delete, inject_update, inject_select, guard_text,
  guard_where, set_arg_count, insert_args, update_args, tenant_first, select_text, filter_select,
  conditions,
}
use tenantkit.Interceptor.{
  Interceptor, new_interceptor, should_filter, is_tenant_name, tenant_tables_among, decide_tables,
  missing_tenant,
}
use tenantkit.Placeholder.{
  PlaceholderStyle, dollar, question, count_placeholders, placeholder, find_all, digit_run, number,
  greatest, slice,
}
use tenantkit.QueryCache.{
  MapOrder, QueryCache, Entries, new_query_cache, get, put, make_room, hash_query,
}
use tenantkit.Regexp.{submatch, find_all_submatch, find_submatch, match_at}
use tenantkit.Tables.{Config, extract_all_tables, filter_tenant_tables, from_keyword, TableRef}
use tenantkit.TenantContext.{get_tenant, should_bypass, with_tenant, without_tenant_filtering}
use tenantkit.Detector.{is_system_query}
use tenantkit.Text.{
  Bytes, codes, bytes_eq, trim_space, to_lower, to_upper, has_prefix, index, contains,
}
use mathlib.Core.List.{Permᴰ}
use tenantkit.Inject.Shape.{IsScoped}

pub perm_refl {ℓ} : {A : Type ℓ} (xs : List A) → Permᴰ xs xs
perm_refl [] = Permᴰ.nil
perm_refl (x ∷ xs) = Permᴰ.cons refl (perm_refl xs)

abbrev pub in_order : KeyOrder
in_order = record { visit = λ keys. keys; visit_perm = perm_refl }

abbrev pub map_order : MapOrder
map_order = record { visit = λ m. m; visit_perm = perm_refl }

abbrev pub shop_config : Config
shop_config = record {
  tenant_tables = codes "users" ∷ codes "orders" ∷ [];
  tenant_column = codes "tenant_id";
}

abbrev pub shop : Db
shop = record {
  interceptor = record { config = shop_config; tenant_table_map = shop_config.tenant_tables };
  config = shop_config;
  style = dollar;
  cache = record { entries = []; max_size = 1000; hits = 0; misses = 0 };
}

abbrev pub acme : GoContext
acme = with_tenant [] (codes "acme")

abbrev pub deletion : Bytes
deletion = codes "DELETE FROM users WHERE id = $1"

-- The only query that is asked.
abbrev pub Only : Bytes → Bytes → Type 0
Only sql q = q ≡ sql

pub running : Unit {0}
unfolding tables_of extract_tables bytes_eq trim_space collapse to_lower add_matches add_list
    add_part add_name submatch find_all_submatch find_submatch match_at should_filter decide_tables
    tenant_tables_among is_system_query get_tenant should_bypass with_tenant value_of rewrite query
    inject_tenant_filter on_found on_miss get hash_query kind_of inject_kind inject_delete
    inject_update inject_select lookup extract_all_tables filter_tenant_tables filter_select
    without_tenant_filtering
running = tt

-- Where one query is asked, the cache is safe if the query is no INSERT.
pub Only-IsSafe : (sql : Bytes) → kind_of sql ≢ insert → IsSafe shop_config dollar (Only sql)
Only-IsSafe sql n = record { distinct = λ a b p q e. p ∙ sym q; reusable = λ a p. rw p n }
