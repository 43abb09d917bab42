-- ===== src/Engine.antt =====
-- `injectTenantFilter` of tenantkit/wrap.go: the rewriting of a query behind the cache. The cache
-- is passed in and out; the rest of the DB does not change.
pub mod Plain
pub mod Entries
pub mod Serving
pub mod Transparent
pub mod Sequence
pub mod Repeat
use tenantkit.Inject.{
  Value, text, Statement, Injected, tenant_first, insert_args, set_arg_count, inject_select,
  inject_update, inject_delete, inject_insert,
}
use tenantkit.Placeholder.{PlaceholderStyle, question, dollar, colon, count_placeholders}
use tenantkit.Prelude.{
  ℕ, ◌+◌, ◌-◌, Bool, true, false, List, [], ◌∷◌, ◌++◌, Option, none, some, if◌then◌else◌, length,
  replicate, Result, ok, err, panic, ◌>>=◌,
}
use tenantkit.QueryCache.{QueryCache, Entry, MapOrder, get, put}
use tenantkit.Tables.{Config, InjectError}
use tenantkit.Text.{Bytes, codes, to_upper, has_prefix, trim_space}

pub data Kind : Type 0 where
  select update delete insert unknown : Kind

-- The `switch` on the prefix of the query in upper case.
unfoldable pub kind_of : Bytes → Kind
unfolding to_upper has_prefix
kind_of query =
    let upper = to_upper query in
    if has_prefix upper (codes "SELECT")
    then select
    else if has_prefix upper (codes "UPDATE")
    then update
    else if has_prefix upper (codes "DELETE")
    then delete
    else if has_prefix upper (codes "INSERT")
    then insert
    else unknown

-- The arguments on a hit: the tenant arguments in the middle, in front, or behind.
unfoldable pub cached_args :
    PlaceholderStyle → Bytes → Bytes → ℕ → List Value → Result InjectError (List Value)
unfolding to_upper has_prefix insert_args set_arg_count
cached_args question tenant_id query arg_count args =
    let tenant_args = replicate arg_count (text tenant_id) in
    if has_prefix (to_upper query) (codes "UPDATE")
    then insert_args (set_arg_count query) tenant_args args
    else ok (tenant_args ++ args)
cached_args dollar tenant_id query arg_count args =
    ok (args ++ replicate arg_count (text tenant_id))
cached_args colon tenant_id query arg_count args = ok (args ++ replicate arg_count (text tenant_id))

-- The result on a hit.
unfoldable pub from_entry : PlaceholderStyle → Bytes → Bytes → List Value → Entry → Injected
unfolding cached_args
from_entry style tenant_id query args entry = do
  new_args ← cached_args style tenant_id query entry.arg_count args
  ok (record { query = entry.transformed_query; args = new_args })

module _ (config : Config) (style : PlaceholderStyle) where
  -- The branches of the switch.
  unfoldable pub inject_kind : Bytes → Kind → Bytes → List Value → Injected
  unfolding inject_select inject_update inject_delete inject_insert count_placeholders
  inject_kind tenant_id select query args =
      inject_select config style tenant_id query args (count_placeholders style query)
  inject_kind tenant_id update query args =
      inject_update config style tenant_id query args (count_placeholders style query)
  inject_kind tenant_id delete query args =
      inject_delete config style tenant_id query args (count_placeholders style query)
  inject_kind tenant_id insert query args = inject_insert config style tenant_id query args
  inject_kind tenant_id unknown query args = ok (record { query = query; args = args })

  module _ (order : MapOrder) where
    -- The end of a miss: a query that has been rewritten is stored.
    unfoldable pub store : QueryCache → Kind → Bytes → List Value → Injected → QueryCache
    unfolding put
    store cache unknown query args result = cache
    store cache _ query args (ok s) =
        put order cache query s.query (length s.args - length args) true
    store cache _ query args (err e) = cache
    store cache _ query args panic = cache

    unfoldable pub on_miss : QueryCache → Bytes → Bytes → List Value → QueryCache × Injected
    unfolding kind_of inject_kind store
    on_miss cache tenant_id query args =
        let result = inject_kind tenant_id (kind_of query) query args in
        (store cache (kind_of query) query args result, result)

    -- The query is trimmed already, and the cache has been asked.
    unfoldable pub on_found :
        QueryCache × Option Entry → Bytes → Bytes → List Value → QueryCache × Injected
    unfolding from_entry on_miss
    on_found (cache, none) tenant_id query args = on_miss cache tenant_id query args
    on_found (cache, some entry) tenant_id query args =
        let miss = on_miss cache tenant_id query args in
        if entry.is_tenant_query then (cache, from_entry style tenant_id query args entry) else miss

    unfoldable pub inject_tenant_filter :
        QueryCache → Bytes → Bytes → List Value → QueryCache × Injected
    unfolding trim_space get on_found
    inject_tenant_filter cache query tenant_id args =
        on_found (get cache (trim_space query)) tenant_id (trim_space query) args
