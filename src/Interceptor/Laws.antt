-- ===== src/Interceptor/Laws.antt =====
-- When a query is filtered, when it passes, and when it is refused.
use tenantkit.Prelude.{
  ◌≡◌, refl, ◌∙◌, ◌≢◌, inl, inr, Bool, true, false, List, [], ◌∷◌, arith, Bool-cases, any, Result,
  ok, err,
}
use tenantkit.Text.{Bytes, bytes_eq}
use tenantkit.Interceptor.{
  Interceptor, is_tenant_name, should_filter, Decision, tenant_tables_among, QueryError,
  decide_tables, missing_tenant, tenant_table_access,
}
use tenantkit.Extractor.{KeyOrder, tables_of, extract_tables}
use tenantkit.Domain.{GoContext}
use tenantkit.Detector.{is_system_query}
use tenantkit.TenantContext.{should_bypass, get_tenant}
use mathlib.Core.List.{Permᴰ}
use tenantkit.Text.Equality.{bytes_eq_iff}
use tenantkit.TenantContext.Laws.{get_tenant-ok}

-- A tenant table is among the tables of the query.
abbrev pub Touches : Interceptor → Bytes → Type 0
Touches i query = any (is_tenant_name i) (tables_of query) ≡ true

any-perm {ℓ} : {A : Type ℓ} (p : A → Bool) {xs ys : List A} → Permᴰ xs ys → any p xs ≡ any p ys
any-perm p Permᴰ.nil = refl
any-perm p (Permᴰ.cons e q) = rw (e, any-perm p q)
any-perm p (Permᴰ.swap {a = a} {b = b} e f) = rw (← e, ← f) (ground arith)
any-perm p (Permᴰ.trans q r) = any-perm p q ∙ any-perm p r

among-nil :
    (i : Interceptor) (tables : List Bytes)
    → tenant_tables_among i tables ≡ []
    → any (is_tenant_name i) tables ≡ false
unfolding tenant_tables_among
among-nil i [] h = refl
among-nil i (t ∷ ts) h = ground (arith, among-nil i ts)

nil-among :
    (i : Interceptor) (tables : List Bytes)
    → any (is_tenant_name i) tables ≡ false
    → tenant_tables_among i tables ≡ []
unfolding tenant_tables_among
nil-among i [] h = refl
nil-among i (t ∷ ts) h = ground (arith, nil-among i ts)

-- The order of the tables does not count.
touched_tables :
    (order : KeyOrder) (i : Interceptor) (query : Bytes)
    → any (is_tenant_name i) (extract_tables order query) ≡ any (is_tenant_name i) (tables_of query)
unfolding extract_tables
touched_tables order i query = any-perm (is_tenant_name i) (order.visit_perm (tables_of query))

decide-filtered :
    (ctx : GoContext) (query : Bytes) (tables ts : List Bytes) (d : Decision)
    → decide_tables ctx query tables ts ≡ ok d
    → d.requires_filtering ≡ true
    → (ts ≢ []) × (d.tenant_id ≡ (get_tenant ctx).0) × (d.tenant_id ≢ [])
unfolding decide_tables
decide-filtered ctx query tables [] d h f = absurd (ground arith)
decide-filtered ctx query tables (t ∷ ts) d h f =
    (cc, ground arith, ground (arith, bytes_eq_iff (get_tenant ctx).0 []))

-- The two ends of a query that touches a tenant table.
pub data IsDecided (ctx : GoContext) (query : Bytes) (r : Result QueryError Decision) : Type 0 where
  refused :
      (ts : List Bytes)
      → (get_tenant ctx).0 ≡ []
      → r ≡ err (missing_tenant query ts)
      → IsDecided ctx query r
  filtered :
      (d : Decision)
      → (get_tenant ctx).0 ≢ []
      → r ≡ ok d
      → d.requires_filtering ≡ true
      → d.tenant_id ≡ (get_tenant ctx).0
      → IsDecided ctx query r

decide-IsDecided :
    (ctx : GoContext) (query : Bytes) (tables ts : List Bytes)
    → ts ≢ []
    → IsDecided ctx query (decide_tables ctx query tables ts)
unfolding decide_tables
decide-IsDecided ctx query tables [] h = absurd (h refl)
decide-IsDecided ctx query tables (t ∷ ts) h = elim (Bool-cases (get_tenant ctx).1) [
  | inl found ↦
      let given = (get_tenant-ok ctx).0 found in
      filtered
        (record {
          requires_filtering = true;
          reason = tenant_table_access;
          tenant_id = (get_tenant ctx).0;
          extracted_tables = tables;
          tenant_tables = t ∷ ts;
        })
        given (ground (arith, bytes_eq_iff (get_tenant ctx).0 [])) refl refl
  | inr missing ↦ refused (t ∷ ts) (none_given missing) (ground arith)
]
  where
    none_given : (get_tenant ctx).1 ≡ false → (get_tenant ctx).0 ≡ []
    none_given m = elim (Bool-cases (bytes_eq (get_tenant ctx).0 [])) [
      | inl e ↦ (bytes_eq_iff _ []).0 e
      | inr n ↦ absurd (ground (arith, (get_tenant-ok ctx).1, bytes_eq_iff (get_tenant ctx).0 []))
    ]

module _ (order : KeyOrder) (i : Interceptor) (ctx : GoContext) (query : Bytes) where
  -- A query that is filtered is no system query and not bypassed, touches a tenant table, and is
  -- filtered by the tenant of the context, whose id is not empty.
  pub filtered_only :
      (d : Decision)
      → should_filter order i ctx query ≡ ok d
      → d.requires_filtering ≡ true
      → (is_system_query query ≡ false)
        × (should_bypass ctx ≡ false)
        × Touches i query
        × (d.tenant_id ≡ (get_tenant ctx).0)
        × (d.tenant_id ≢ [])
  unfolding should_filter
  filtered_only d h f = elim (Bool-cases (is_system_query query)) [
    | inl s ↦ absurd (let h' = rw s at h in ground arith)
    | inr s ↦ elim (Bool-cases (should_bypass ctx)) [
      | inl b ↦ absurd (let h' = rw (s, b) at h in ground arith)
      | inr b ↦
          let tables = extract_tables order query in
          let (touched, same, given) =
            decide-filtered ctx query tables (tenant_tables_among i tables) d (rw (s, b) at h) f in
          (s, b, touches touched, same, given)
    ]
  ]
    where
      touches : tenant_tables_among i (extract_tables order query) ≢ [] → Touches i query
      touches n = elim (Bool-cases (any (is_tenant_name i) (tables_of query))) [
        | inl t ↦ t
        | inr f ↦ absurd (n (nil-among i _ (touched_tables order i query ∙ f)))
      ]

  -- A query that touches a tenant table, is no system query and is not bypassed is filtered by the
  -- tenant of the context if that is not empty, and refused with ErrMissingTenant if it is.
  pub touching-IsDecided :
      is_system_query query ≡ false
      → should_bypass ctx ≡ false
      → Touches i query
      → IsDecided ctx query (should_filter order i ctx query)
  unfolding should_filter
  touching-IsDecided s b t =
      let tables = extract_tables order query in
      rw (s, b)
        (decide-IsDecided ctx query tables (tenant_tables_among i tables)
          (λ e. absurd (ground (arith, among-nil i tables e, touched_tables order i query))))
