-- ===== src/Engine/Sequence.antt =====
-- Sequences of calls of `injectTenantFilter` on one cache.
use tenantkit.Prelude.{
  ◌-◌, ◌≡◌, refl, inl, inr, true, Option, none, some, List, [], ◌∷◌, map, arith, Bool-cases, length,
  All, ok, err, panic, ℤ,
}
use tenantkit.Inject.{Value, Injected}
use tenantkit.Tables.{Config}
use tenantkit.Text.{Bytes, trim_space}
use tenantkit.Placeholder.{PlaceholderStyle}
use tenantkit.Engine.{unknown, on_found, store, inject_tenant_filter, on_miss, Kind, kind_of}
use tenantkit.QueryCache.{get, MapOrder, new_query_cache, QueryCache, Entry}
use tenantkit.Engine.Plain.{inject_plain}
use tenantkit.Engine.Transparent.{IsSafe, IsSound, inject-trimmed}
use tenantkit.QueryCache.Bound.{IsBounded, put-IsBounded}

-- One call, with the tenant that the decision has found.
pub record Request : Type 0 where
  pub query : Bytes
  pub tenant_id : Bytes
  pub args : List Value

module _ (config : Config) (style : PlaceholderStyle) where
  -- The calls in turn, each on the cache that the last one left.
  unfoldable pub run : MapOrder → QueryCache → List Request → QueryCache × List Injected
  run order cache [] = (cache, [])
  run order cache (r ∷ rs) =
      let (next, result) =
        inject_tenant_filter config style order cache r.query r.tenant_id r.args in
      let (last, results) = run order next rs in (last, result ∷ results)

  abbrev pub plain : Request → Injected
  plain r = inject_plain config style r.query r.tenant_id r.args

  module _ (P : Bytes → Type 0) (order : MapOrder) where
    run-plain :
        (cache : QueryCache) (rs : List Request)
        → IsSafe config style P
        → IsSound config style P cache
        → All (λ r. P (trim_space r.query)) rs
        → (run order cache rs).1 ≡ map plain rs
    unfolding run
    run-plain cache [] safe sound h = refl
    run-plain cache (r ∷ rs) safe sound (p, h) =
        let (now, kept) =
          inject-trimmed config style P order cache r.query r.tenant_id r.args safe sound p in
        rw (
          now,
          run-plain (inject_tenant_filter config style order cache r.query r.tenant_id r.args).0 rs
              safe kept h,
        )

    -- From an empty cache every call of a sequence is answered as with no cache, whatever was
    -- cached or evicted in between and for whichever tenant, if the queries that P allows have
    -- distinct hashes and, with numbered placeholders, no INSERT is among them.
    pub run-transparent :
        (max_size : ℤ) (rs : List Request)
        → IsSafe config style P
        → All (λ r. P (trim_space r.query)) rs
        → (run order (new_query_cache max_size) rs).1 ≡ map plain rs
    unfolding new_query_cache
    run-transparent max_size rs safe h = run-plain (new_query_cache max_size) rs safe tt h

  store-IsBounded :
      (order : MapOrder) (kind : Kind) (cache : QueryCache) (query : Bytes) (args : List Value)
      (result : Injected)
      → IsBounded cache
      → IsBounded (store config style order cache kind query args result)
  unfolding store
  store-IsBounded order unknown cache query args result b = b
  store-IsBounded order _ cache query args (ok s) b =
      put-IsBounded order cache query s.query (length s.args - length args) true b
  store-IsBounded order _ cache query args (err e) b = b
  store-IsBounded order _ cache query args panic b = b

  get-IsBounded :
      (cache : QueryCache) (query : Bytes) → IsBounded cache → IsBounded (get cache query).0
  unfolding get
  get-IsBounded cache query b = ground arith

  found-IsBounded :
      (order : MapOrder) (found : QueryCache × Option Entry) (query tenant_id : Bytes)
      (args : List Value)
      → IsBounded found.0
      → IsBounded (on_found config style order found tenant_id query args).0
  unfolding on_found on_miss
  found-IsBounded order (cache, none) query tenant_id args b =
      store-IsBounded order (kind_of query) cache query args _ b
  found-IsBounded order (cache, some entry) query tenant_id args b =
      elim (Bool-cases entry.is_tenant_query) [
        | inl t ↦ rw t b
        | inr f ↦ rw f (store-IsBounded order (kind_of query) cache query args _ b)
      ]

  inject-IsBounded :
      (order : MapOrder) (cache : QueryCache) (query tenant_id : Bytes) (args : List Value)
      → IsBounded cache
      → IsBounded (inject_tenant_filter config style order cache query tenant_id args).0
  unfolding inject_tenant_filter
  inject-IsBounded order cache query tenant_id args b =
      found-IsBounded order (get cache (trim_space query)) (trim_space query) tenant_id args
        (get-IsBounded cache (trim_space query) b)

  -- A sequence of calls on a cache with no more entries than its maximum, which is not 0, leaves
  -- one with no more entries than its maximum.
  pub run-IsBounded :
      (order : MapOrder) (cache : QueryCache) (rs : List Request)
      → IsBounded cache
      → IsBounded (run order cache rs).0
  unfolding run
  run-IsBounded order cache [] b = b
  run-IsBounded order cache (r ∷ rs) b =
      run-IsBounded order
        (inject_tenant_filter config style order cache r.query r.tenant_id r.args).0 rs
        (inject-IsBounded order cache r.query r.tenant_id r.args b)
