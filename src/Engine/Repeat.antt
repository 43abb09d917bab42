-- ===== src/Engine/Repeat.antt =====
-- The second call with a query text: it is served from the entry that the first one stored.
use tenantkit.Prelude.{
  ℕ, ◌+◌, ◌-◌, ◌≡◌, refl, ap, ◌∙◌, ◌≢◌, inl, inr, true, none, some, List, [], ◌∷◌, ◌++◌, arith, ltb,
  if◌then◌else◌, Bool-cases, length, take, drop, ok, panic, ok-injective, >>=-eq-ok,
}
use tenantkit.Inject.{
  Value, Statement, insert_parts, inject_insert, text, or_error, column_exists_in_list,
  insert_keyword, values_keyword,
}
use tenantkit.Tables.{Config, invalid_insert, explicit_columns}
use tenantkit.Placeholder.{PlaceholderStyle, dollar, renumber_placeholders}
use tenantkit.QueryCache.{MapOrder, QueryCache, hash_query, put, get, Entry, add_one, make_room}
use tenantkit.Text.{Bytes, trim_space, to_upper, index, contains, codes}
use tenantkit.Assoc.{nat_eq, lookup}
use tenantkit.Engine.Plain.{inject_plain}
use tenantkit.Engine.{
  insert, delete, kind_of, unknown, inject_tenant_filter, from_entry, store, on_found, on_miss,
  Kind, select, update, cached_args, inject_kind,
}
use tenantkit.Engine.Serving.{entry_for}
use tenantkit.Assoc.Laws.{lookup-insert_self}

get_miss :
    (cache : QueryCache) (query : Bytes)
    → lookup (hash_query query) cache.entries ≡ none
    → get cache query ≡ (record cache { misses = add_one cache.misses }, none)
unfolding get
get_miss cache query h = rw (h, get)

get_hit :
    (cache : QueryCache) (query : Bytes) (entry : Entry)
    → lookup (hash_query query) cache.entries ≡ some entry
    → get cache query ≡ (record cache { hits = add_one cache.hits }, some entry)
unfolding get
get_hit cache query entry h = rw (h, get)

module _ (config : Config) (style : PlaceholderStyle) (order : MapOrder) where
  store-put :
      (kind : Kind) (cache : QueryCache) (query : Bytes) (args : List Value) (s : Statement)
      → kind ≢ unknown
      → store config style order cache kind query args (ok s)
        ≡ put order cache query s.query (length s.args - length args) true
  unfolding store
  store-put unknown cache query args s h = absurd (h refl)
  store-put select cache query args s h = refl
  store-put update cache query args s h = refl
  store-put delete cache query args s h = refl
  store-put insert cache query args s h = refl

  lookup-put :
      (cache : QueryCache) (query : Bytes) (args : List Value) (s : Statement)
      → lookup
          (hash_query query)
          (put order cache query s.query (length s.args - length args) true).entries
        ≡ some (entry_for config style query s args)
  unfolding put
  lookup-put cache query args s =
      lookup-insert_self (hash_query query) (entry_for config style query s args)
        (make_room order cache).entries

  -- The first call stores an entry, and the second one reads it.
  pub second-from_entry :
      (cache : QueryCache) (query first_tenant : Bytes) (first_args : List Value) (s : Statement)
      (tenant_id : Bytes) (args : List Value)
      → lookup (hash_query (trim_space query)) cache.entries ≡ none
      → inject_plain config style query first_tenant first_args ≡ ok s
      → kind_of (trim_space query) ≢ unknown
      → (inject_tenant_filter config style order
          (inject_tenant_filter config style order cache query first_tenant first_args).0
          query
          tenant_id
          args).1
        ≡ from_entry style tenant_id
            (trim_space query)
            args
            (entry_for config style (trim_space query) s first_args)
  unfolding inject_tenant_filter on_found on_miss inject_plain
  second-from_entry cache query first_tenant first_args s tenant_id args absent rewritten known =
      let q = trim_space query in
      let missed : QueryCache = record cache { misses = add_one cache.misses } in
      let after = put order missed q s.query (length s.args - length first_args) true in
      rw (
        get_miss cache q absent,
        rewritten,
        store-put (kind_of q) missed q first_args s known,
        get_hit after q (entry_for config style q s first_args) (lookup-put missed q first_args s),
      )

module _ (config : Config) (style : PlaceholderStyle) (query : Bytes) where
  insert_parts-args :
      (table_part values_part : Bytes) (paren_pos : ℕ) (first_tenant tenant_id : Bytes)
      (first_args args : List Value) (s : Statement)
      → insert_parts config style first_tenant
          (record { query = query; args = first_args })
          table_part
          values_part
          paren_pos
        ≡ ok s
      → s.args ≡ text first_tenant ∷ first_args
      → insert_parts config style tenant_id
          (record { query = query; args = args })
          table_part
          values_part
          paren_pos
        ≡ ok (record { query = s.query; args = text tenant_id ∷ args })
  unfolding insert_parts
  insert_parts-args table_part values_part paren_pos first_tenant tenant_id first_args args s e h =
      let upper_columns = to_upper (drop paren_pos table_part) in
      let present = column_exists_in_list upper_columns (to_upper config.tenant_column) in
      let renumbered = renumber_placeholders style values_part 1 in
      elim (Bool-cases present) [
        | inl p ↦
            let same = ok-injective _ s (rw p at e) in
            absurd (omega (arith, ap length (rw (← same) at h)))
        | inr p ↦ elim (Bool-cases (contains renumbered (codes "("))) [
          | inl q ↦ let same = ok-injective _ s (rw (p, q) at e) in rw (p, q, ← same)
          | inr q ↦ absurd (let bad = rw (p, q) at e in cc)
        ]
      ]

  -- An INSERT that is given the tenant column gets it with any tenant and arguments.
  inject_insert-args :
      (first_tenant tenant_id : Bytes) (first_args args : List Value) (s : Statement)
      → inject_insert config style first_tenant query first_args ≡ ok s
      → s.args ≡ text first_tenant ∷ first_args
      → inject_insert config style tenant_id query args
        ≡ ok (record { query = s.query; args = text tenant_id ∷ args })
  unfolding inject_insert
  inject_insert-args first_tenant tenant_id first_args args s e h =
      let (insert_pos, e1, r1) =
        >>=-eq-ok (or_error invalid_insert (index (to_upper query) insert_keyword)) _ s e in
      let (values_pos, e2, r2) =
        >>=-eq-ok (or_error explicit_columns (index (to_upper query) values_keyword)) _ s r1 in
      let start = insert_pos + 12 in
      let (table_part, e3, r3) =
        >>=-eq-ok
          (if ltb values_pos start
            then panic
            else ok (take (values_pos - start) (drop start query)))
          _ s r2 in
      let (paren_pos, e4, r4) =
        >>=-eq-ok (or_error explicit_columns (index table_part (codes "("))) _ s r3 in
      rw (e1, e2, e3, e4)
        (insert_parts-args table_part (drop (values_pos + 8) query) paren_pos first_tenant tenant_id
          first_args args s r4 h)

-- With $ the second run of an INSERT that the first has given the tenant column does not bind as
-- with no cache: the code of a hit puts the tenant behind the arguments of the caller, while $1,
-- which is the tenant column, binds the first of them.
pub second_insert_misplaced :
    (config : Config) (order : MapOrder) (cache : QueryCache) (query first_tenant : Bytes)
    (first_args : List Value) (s : Statement) (tenant_id : Bytes) (args : List Value)
    → lookup (hash_query (trim_space query)) cache.entries ≡ none
    → kind_of (trim_space query) ≡ insert
    → inject_plain config dollar query first_tenant first_args ≡ ok s
    → s.args ≡ text first_tenant ∷ first_args
    → ((inject_tenant_filter config dollar order
          (inject_tenant_filter config dollar order cache query first_tenant first_args).0
          query
          tenant_id
          args).1
        ≡ ok (record { query = s.query; args = args ++ text tenant_id ∷ [] }))
      × (inject_plain config dollar query tenant_id args
          ≡ ok (record { query = s.query; args = text tenant_id ∷ args }))
unfolding from_entry cached_args
second_insert_misplaced config order cache query first_tenant first_args s tenant_id args absent
      kind rewritten added =
    (
      second-from_entry config dollar order cache query first_tenant first_args s tenant_id args
            absent rewritten (ne_unknown _ kind)
          ∙ served,
      plain,
    )
  where
    ne_unknown : (k : Kind) → k ≡ insert → k ≢ unknown
    ne_unknown k e f = cc

    one_added : length s.args - length first_args ≡ 1
    one_added = rw added (omega arith)

    served :
        from_entry dollar tenant_id
          (trim_space query)
          args
          (entry_for config dollar (trim_space query) s first_args)
        ≡ ok (record { query = s.query; args = args ++ text tenant_id ∷ [] })
    served = rw one_added

    plain :
        inject_plain config dollar query tenant_id args
        ≡ ok (record { query = s.query; args = text tenant_id ∷ args })
    plain =
        unfold inject_plain inject_kind in
        rw kind (
          inject_insert-args config dollar (trim_space query) first_tenant tenant_id first_args args
            s (rw kind at rewritten) added)
