-- ===== src/Database/Laws.antt =====
-- What a call on the DB passes to database/sql.
use tenantkit.Prelude.{
  suc, ◌≡◌, refl, sym, ap, ◌∙◌, ◌⊎◌, inl, inr, true, false, none, List, [], ◌∷◌, Bool-cases, ℕ,
  take, drop, ◌++◌, Result, ok, err, panic, ok-injective,
}
use tenantkit.Database.{Db, rewrite, query, wrap_error, wrap}
use tenantkit.Domain.{GoContext}
use tenantkit.Detector.{is_system_query}
use tenantkit.Engine.{select, kind_of, inject_kind}
use tenantkit.Engine.Plain.{inject_plain}
use tenantkit.Engine.Transparent.{IsSafe, IsSound, inject-trimmed}
use tenantkit.Extractor.{KeyOrder}
use tenantkit.Inject.{Value, Statement, equals, inject_select, filter_select}
use tenantkit.Interceptor.{missing_tenant, should_filter, new_interceptor, default_column}
use tenantkit.Interceptor.Laws.{Touches, refused, filtered, touching-IsDecided}
use tenantkit.Placeholder.{
  placeholder, count_placeholders, PlaceholderStyle, question, dollar, colon,
}
use tenantkit.QueryCache.{MapOrder}
use tenantkit.Tables.{Config, extract_all_tables, filter_tenant_tables, from_keyword}
use tenantkit.TenantContext.{should_bypass, get_tenant}
use tenantkit.Text.{Bytes, trim_space, to_upper, index, bytes_eq}

-- The query is to be filtered: it is no system query, the context has no bypass flag, and a table of
-- the query is a tenant table.
pub record IsGuarded (db : Db) (ctx : GoContext) (sql : Bytes) : Type 0 where
  pub user_query : is_system_query sql ≡ false
  pub no_bypass : should_bypass ctx ≡ false
  pub touches : Touches db.interceptor sql

-- The text that an UPDATE or a DELETE compares the tenant column with.
abbrev pub tenant_condition : Db → Bytes → Bytes
tenant_condition db sql =
    equals db.config.tenant_column
      (placeholder db.style (suc (count_placeholders db.style (trim_space sql))))

-- The new arguments stand behind so many of the others for ?, and behind all of them otherwise.
abbrev pub IsPlaced : PlaceholderStyle → ℕ → List Value → List Value → List Value → Type 0
IsPlaced question n new args result = result ≡ take n args ++ (new ++ drop n args)
IsPlaced dollar n new args result = result ≡ args ++ new
IsPlaced colon n new args result = result ≡ args ++ new

wrap_error-ok : (r : Result _ Statement) (s : Statement) → wrap_error r ≡ ok s → r ≡ ok s
unfolding wrap_error
wrap_error-ok (ok t) s h = ap ok (ok-injective t s h)
wrap_error-ok (err e) s h = absurd cc
wrap_error-ok panic s h = absurd cc

extract_none : (q : Bytes) → index (to_upper q) from_keyword ≡ none → extract_all_tables q ≡ ok []
unfolding extract_all_tables
extract_none q e = rw (e, extract_all_tables) refl

module _ (tables_order : KeyOrder) (order : MapOrder) (db : Db) (ctx : GoContext) where
  -- A query that must be filtered is not executed where the context has no tenant: the call ends
  -- with ErrMissingTenant, and the DB, its cache included, stays as it was.
  pub query-refused :
      (sql : Bytes) (args : List Value)
      → IsGuarded db ctx sql
      → (get_tenant ctx).0 ≡ []
      → (ts : List Bytes) × (query tables_order order db ctx sql args
          ≡ (db, err (missing_tenant sql ts)))
  unfolding query rewrite
  query-refused sql args g none_given =
      elim (touching-IsDecided tables_order db.interceptor ctx sql g.user_query g.no_bypass
        g.touches) [ refused ts e r ↦ (ts, rw r refl) | filtered d n r f t ↦ absurd (n none_given) ]

  -- With the bypass flag a query is executed as it is given, and the DB stays as it was.
  pub query-bypassed :
      (sql : Bytes) (args : List Value)
      → should_bypass ctx ≡ true
      → query tables_order order db ctx sql args ≡ (db, ok (record { query = sql; args = args }))
  unfolding query rewrite should_filter
  query-bypassed sql args b = elim (Bool-cases (is_system_query sql)) [
    | inl s ↦ rw s refl
    | inr s ↦ rw (s, b) refl
  ]

  module _ (P : Bytes → Type 0) (safe : IsSafe db.config db.style P)
      (sound : IsSound db.config db.style P db.cache) (sql : Bytes) (p : P (trim_space sql))
      (args : List Value) (s : Statement) (g : IsGuarded db ctx sql)
      (h : (query tables_order order db ctx sql args).1 ≡ ok s) where
    -- What is executed is what the switch has made of the query.
    executed-inject_kind :
        inject_kind db.config db.style
          (get_tenant ctx).0
          (kind_of (trim_space sql))
          (trim_space sql)
          args
        ≡ ok s
    unfolding inject_plain query rewrite
    executed-inject_kind =
        elim (touching-IsDecided tables_order db.interceptor ctx sql g.user_query g.no_bypass
          g.touches) [
            | refused ts e r ↦ absurd (let h' = rw r at h in cc)
            | filtered d n r f t ↦
                let h' = rw (r, f) at h in
                let (same, kept) =
                  inject-trimmed db.config db.style P order db.cache sql d.tenant_id args safe sound
                    p in
                rw (← t) (sym same ∙ wrap_error-ok _ s h')
          ]

    -- A SELECT whose FROM does not stand between two spaces, though it must be filtered, is
    -- executed trimmed but otherwise unchanged, with no filter. The cache holds sound entries only,
    -- and the queries that P allows have distinct hashes and are no numbered INSERT.
    pub executed_select-unscoped :
        kind_of (trim_space sql) ≡ select
        → index (to_upper (trim_space sql)) from_keyword ≡ none
        → s ≡ record { query = trim_space sql; args = args }
    unfolding inject_kind inject_select filter_tenant_tables filter_select
    executed_select-unscoped k e =
        sym (ok-injective _ s (rw (k, extract_none (trim_space sql) e) at executed-inject_kind))

-- With an empty TenantColumn the interceptor gets the default column, and the DB that rewrites the
-- queries keeps the empty one.
pub wrap-empty_column :
    (config : Config) (db : Db)
    → config.tenant_column ≡ []
    → wrap true config ≡ ok db
    → (db.interceptor.config.tenant_column ≡ default_column) × (db.config.tenant_column ≡ [])
unfolding wrap new_interceptor bytes_eq
wrap-empty_column config db e h = elim (new_cases config.tenant_tables) [
  | inl z ↦ absurd (let h' = rw z at h in cc)
  | inr (t, ts, z) ↦ let same = ok-injective _ db (rw z at h) in rw (← same) (rw e refl, e)
]
  where
    new_cases : (xs : List Bytes) → (xs ≡ []) ⊎ ((t : Bytes) × (ts : List Bytes) × (xs ≡ t ∷ ts))
    new_cases [] = inl refl
    new_cases (t ∷ ts) = inr (t, ts, refl)
