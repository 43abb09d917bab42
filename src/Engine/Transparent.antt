-- ===== src/Engine/Transparent.antt =====
-- The cache does not show: behind it a query is rewritten as with no cache.
use tenantkit.Assoc.{lookup, nat_eq}
use tenantkit.Engine.{
  Kind, unknown, on_found, kind_of, store, inject_kind, on_miss, inject_tenant_filter,
}
use tenantkit.Prelude.{
  ℕ, ◌≡◌, refl, sym, true, Option, none, some, List, arith, All, ok, err, panic,
}
use tenantkit.Tables.{Config}
use tenantkit.Placeholder.{PlaceholderStyle}
use tenantkit.Text.{Bytes, trim_space}
use tenantkit.QueryCache.{MapOrder, hash_query, Entry, get, QueryCache, put, make_room}
use tenantkit.Inject.{Value, Injected, Statement}
use tenantkit.Engine.Entries.{IsReusable, Serves}
use tenantkit.Engine.Serving.{miss_Serves, entry_for}
use tenantkit.Assoc.{lookup}
use tenantkit.Engine.Plain.{inject_plain}
use tenantkit.Assoc.Laws.{All-insert, All-lookup}
use tenantkit.QueryCache.Bound.{All-make_room}

module _ (config : Config) (style : PlaceholderStyle) (P : Bytes → Type 0) where
  -- An entry stands under the hash of its query, of which P holds, and serves it.
  pub record IsEntry (slot : ℕ × Entry) : Type 0 where
    pub keyed : slot.0 ≡ hash_query slot.1.original_query
    pub issued : P slot.1.original_query
    pub tenant : slot.1.is_tenant_query ≡ true
    pub serves : Serves config style slot.1.original_query slot.1

  abbrev pub IsSound : QueryCache → Type 0
  IsSound cache = All IsEntry cache.entries

  -- No two of the queries have the same hash, and each may be served from the cache.
  pub record IsSafe : Type 0 where
    pub distinct : (a b : Bytes) → P a → P b → hash_query a ≡ hash_query b → a ≡ b
    pub reusable : (a : Bytes) → P a → IsReusable style (kind_of a)

  entries-get : (cache : QueryCache) (query : Bytes) → (get cache query).0.entries ≡ cache.entries
  unfolding get
  entries-get cache query = ground arith

  get-lookup :
      (cache : QueryCache) (query : Bytes)
      → (get cache query).1 ≡ lookup (hash_query query) cache.entries
  unfolding get
  get-lookup cache query = ground arith

  module _ (order : MapOrder) where
    store-entry :
        (kind : Kind) (cache : QueryCache) (query : Bytes) (args : List Value) (result : Injected)
        → IsSound cache
        → ((s : Statement)
            → result ≡ ok s
            → IsEntry (hash_query query, entry_for config style query s args))
        → IsSound (store config style order cache kind query args result)
    unfolding store put
    store-entry unknown cache query args result sound h = sound
    store-entry _ cache query args (ok s) sound h =
        All-insert IsEntry (hash_query query) (entry_for config style query s args)
          (make_room order cache).entries (All-make_room order cache IsEntry sound) (h s refl)
    store-entry _ cache query args (err e) sound h = sound
    store-entry _ cache query args panic sound h = sound

    store-IsSound :
        (cache : QueryCache) (query tenant_id : Bytes) (args : List Value)
        → IsSound cache
        → P query
        → IsReusable style (kind_of query)
        → IsSound (
            store config style order cache
              (kind_of query)
              query
              args
              (inject_kind config style tenant_id (kind_of query) query args))
    store-IsSound cache query tenant_id args sound p r =
        store-entry (kind_of query) cache query args _ sound λ s e. record {
          keyed = refl;
          issued = p;
          tenant = refl;
          serves = miss_Serves config style query tenant_id args s r e;
        }

    -- Whether the cache has the query or not, the result is that of the switch, and the cache
    -- stays sound.
    inject-found :
        (cache : QueryCache) (found : QueryCache × Option Entry) (query tenant_id : Bytes)
        (args : List Value)
        → IsSafe
        → IsSound cache
        → P query
        → found.0.entries ≡ cache.entries
        → found.1 ≡ lookup (hash_query query) cache.entries
        → ((on_found config style order found tenant_id query args).1
            ≡ inject_kind config style tenant_id (kind_of query) query args)
          × IsSound (on_found config style order found tenant_id query args).0
    unfolding on_found on_miss
    inject-found cache (c, none) query tenant_id args safe sound p same hit =
        (refl, store-IsSound c query tenant_id args (rw same sound) p (safe.reusable query p))
    inject-found cache (c, some entry) query tenant_id args safe sound p same hit =
        let slot : IsEntry (hash_query query, entry) =
          All-lookup IsEntry (hash_query query) entry cache.entries sound (sym hit) in
        let this : entry.original_query ≡ query =
          safe.distinct entry.original_query query slot.issued p (sym slot.keyed) in
        let serves : Serves config style query entry = rw this at slot.serves in
        rw slot.tenant (serves tenant_id args, rw same sound)

    pub inject-trimmed :
        (cache : QueryCache) (query tenant_id : Bytes) (args : List Value)
        → IsSafe
        → IsSound cache
        → P (trim_space query)
        → ((inject_tenant_filter config style order cache query tenant_id args).1
            ≡ inject_plain config style query tenant_id args)
          × IsSound (inject_tenant_filter config style order cache query tenant_id args).0
    unfolding inject_tenant_filter inject_plain
    inject-trimmed cache query tenant_id args safe sound p =
        inject-found cache (get cache (trim_space query)) (trim_space query) tenant_id args safe
          sound p (entries-get cache (trim_space query)) (get-lookup cache (trim_space query))
