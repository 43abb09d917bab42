-- ===== src/Sqlx/Laws.antt =====
-- Where the adapter of sqlx puts the tenant's condition and argument, and when it asks for a tenant.
use tenantkit.Prelude.{
  ℕ, ◌+◌, ◌≤◌, ◌≡◌, refl, sym, ap, inl, inr, false, none, some, List, [], ◌∷◌, ◌++◌, append_assoc,
  arith, ltb, Bool-cases, Option-cases, length, take, drop, take-append-drop, length-take, ok, err,
  ok-injective, >>=-eq-ok,
}
use tenantkit.Domain.{GoContext, DomainError, Context, from_go_context, value_of, sqlx_skip_key}
use tenantkit.Inject.{Value, text, Statement}
use tenantkit.Inject.Args.{IsBound, IsCut, bind-IsCut, marks}
use tenantkit.Sqlx.{
  Scope, no_tenant, get_tenant_id, tenant_id_of, insert_arg_at_position, is_set, should_skip,
  condition_of, insert_place, tail_keywords, where_word, inject_tenant_condition,
}
use tenantkit.Sqlx.Handle.{with_condition, scoped, query_context, without_tenant}
use tenantkit.Text.{Bytes, codes, to_lower, contains, index, count}
use tenantkit.Text.Case.{to_lower-take, count-to_lower}
use tenantkit.Text.Search.{index-split, index-le, count-append}
use tenantkit.Inject.Places.{take_of_split}

insert_arg_at_position-ok :
    (args result : List Value) (place : ℕ) (tenant_id : Bytes)
    → insert_arg_at_position args place tenant_id ≡ ok result
    → (place ≤ length args) × (result ≡ take place args ++ (text tenant_id ∷ drop place args))
unfolding insert_arg_at_position
insert_arg_at_position-ok args result place tenant_id h =
    elim (Bool-cases (ltb (length args) place)) [
      | inl short ↦ absurd (let bad = rw short at h in cc)
      | inr fits ↦ (ground arith, sym (ok-injective _ result (rw fits at h)))
    ]

-- No placeholder stands behind the place of a WHERE that is added.
abbrev pub IsPlacedLast : Bytes → Type 0
IsPlacedLast query =
    (place : ℕ)
    → index (to_lower query) where_word ≡ none
    → place ≡ insert_place (to_lower query) tail_keywords (length query)
    → marks (drop place query) ≡ 0

take-index_lower :
    (s keyword : Bytes) (p : ℕ)
    → index (to_lower s) keyword ≡ some p
    → to_lower (take (p + length keyword) s) ≡ to_lower (take p s) ++ keyword
take-index_lower s keyword p h =
    rw (to_lower-take (p + length keyword) s, to_lower-take p s)
      (take_of_split (p + length keyword) (to_lower s) (take p (to_lower s)) keyword _
        (index-split (to_lower s) keyword p h)
        (omega (arith, length-take p (to_lower s), index-le (to_lower s) keyword p h)))

marks-where :
    (query : Bytes) (p : ℕ)
    → index (to_lower query) where_word ≡ some p
    → marks (take p query) ≡ marks (take (p + 5) query)
unfolding count
marks-where query p h = omega (
  arith,
  count-to_lower (take (p + 5) query),
  count-to_lower (take p query),
  ap marks (take-index_lower query where_word p h),
  count-append b'?',
)

inject_tenant_condition-IsCut :
    (scope : Scope) (query : Bytes)
    → IsPlacedLast query
    → IsCut
        (condition_of scope)
        query
        (inject_tenant_condition scope query).0
        (inject_tenant_condition scope query).1
unfolding inject_tenant_condition count
inject_tenant_condition-IsCut scope query last =
    elim (Option-cases (index (to_lower query) where_word)) [
      | inr (p, e) ↦
          rw (e, inject_tenant_condition)
            (record {
              before = take (p + 5) query;
              rest = drop (p + 5) query;
              lead = take (p + 5) query ++ codes " ";
              after = codes " AND" ++ drop (p + 5) query;
              origin = sym (take-append-drop (p + 5) query);
              result_is = sym (append_assoc (take (p + 5) query) (codes " ") _);
              lead_marks = omega (arith, count-append b'?');
              after_marks = omega (arith, count-append b'?');
              number = marks-where query p e;
            })
      | inl e ↦
          let p = insert_place (to_lower query) tail_keywords (length query) in
          rw (e, inject_tenant_condition)
            (record {
              before = take p query;
              rest = drop p query;
              lead = take p query ++ codes " WHERE ";
              after = codes " " ++ drop p query;
              origin = sym (take-append-drop p query);
              result_is = sym (append_assoc (take p query) (codes " WHERE ") _);
              lead_marks = omega (arith, count-append b'?');
              after_marks = omega (arith, count-append b'?');
              number = omega (
                arith,
                last p e refl,
                count-append b'?' (take p query) (drop p query),
                ap marks (take-append-drop p query),
              );
            })
    ]

with_condition-IsBound :
    (scope : Scope) (query tenant_id : Bytes) (args : List Value) (s : Statement)
    → IsPlacedLast query
    → with_condition scope query args tenant_id ≡ ok s
    → IsBound (condition_of scope) query (text tenant_id ∷ []) args s
unfolding with_condition
with_condition-IsBound scope query tenant_id args s last h =
    let (new_query, place) = inject_tenant_condition scope query in
    let (new_args, inserted, result) =
      >>=-eq-ok (insert_arg_at_position args place tenant_id) _ s h in
    let (enough, value) = insert_arg_at_position-ok args new_args place tenant_id inserted in
    rw (← ok-injective _ s result) (
      bind-IsCut (condition_of scope) query new_query place (text tenant_id ∷ []) args new_args
        (inject_tenant_condition-IsCut scope query last) enough value)

-- A query that the adapter of sqlx does not skip is cut in two with the condition in between, each
-- part with its placeholders, and the tenant of the context stands between the arguments of the
-- two; if there is no WHERE, then for the queries in which no placeholder stands behind the place
-- where WHERE is put.
pub query_context-IsBound :
    (db : Scope) (ctx : GoContext) (tenant : Context) (query : Bytes) (args : List Value)
    (s : Statement)
    → should_skip db ctx query ≡ false
    → from_go_context (some ctx) ≡ ok tenant
    → IsPlacedLast query
    → query_context db (some ctx) query args ≡ ok s
    → IsBound (condition_of db) query (text tenant.tenant_id.value ∷ []) args s
unfolding query_context scoped get_tenant_id tenant_id_of
query_context-IsBound db ctx tenant query args s kept found last h =
    with_condition-IsBound db query tenant.tenant_id.value args s last
      (rw (kept, found, tenant_id_of) at h)

-- Without the flag of SkipTenant, a query that holds no asterisk still needs a tenant after
-- WithoutTenant.
pub without_tenant-refused :
    (db : Scope) (ctx : GoContext) (query : Bytes) (args : List Value) (e : DomainError)
    → is_set (value_of ctx sqlx_skip_key) ≡ false
    → contains (to_lower query) (codes "*") ≡ false
    → from_go_context (some ctx) ≡ err e
    → query_context (without_tenant db) (some ctx) query args ≡ err (no_tenant e)
unfolding query_context scoped get_tenant_id tenant_id_of without_tenant should_skip to_lower
without_tenant-refused db ctx query args e unset starless missing =
    rw (unset, starless, missing, tenant_id_of) refl
