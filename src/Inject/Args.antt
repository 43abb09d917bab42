-- ===== src/Inject/Args.antt =====
-- Which arguments meet which placeholders, for the ? style: the n-th placeholder of a text is bound to
-- the n-th argument.
use tenantkit.Prelude.{
  none, some, ℕ, ◌+◌, ◌≤◌, ◌≡◌, ap, List, ◌∷◌, ◌++◌, arith, length, take, drop, ok, Bool-cases,
  Option-cases, ltb, inr, inl, sym, ok-injective, take-append-drop, append_assoc, >>=-eq-ok, [],
  refl, append-nil, ◌≢◌, suc, replicate,
}
use tenantkit.Inject.{
  Value, Statement, insert_args, guard_text, returning_keyword, guard_where, inject_update,
  set_arg_count, update_args, returning_ends, equals, text, select_text, filter_select,
  inject_delete, select_ends, tenant_first, conditions,
}
use tenantkit.Inject.Shape.{guard_front}
use tenantkit.Inject.Places.{take-index}
use tenantkit.Tables.{where_keyword, Config, first_of_all, TableRef}
use tenantkit.Text.{Bytes, to_upper, index, count, is_space, codes, trim_space}
use tenantkit.Text.Case.{count-to_upper}
use tenantkit.Text.Search.{count-append}
use tenantkit.Placeholder.{placeholder, question}
use tenantkit.Text.Spaces.{count-trim_space}

abbrev pub marks : Bytes → ℕ
marks = count b'?'

-- The query is cut in two, and the result has the condition in between: both parts keep the number of
-- their placeholders, and the new arguments stand between the arguments of the two.
pub record IsBound (condition query : Bytes) (new args : List Value) (s : Statement) : Type 0 where
  pub before : Bytes
  pub rest : Bytes
  pub lead : Bytes
  pub after : Bytes
  pub origin : query ≡ before ++ rest
  pub result : s.query ≡ lead ++ (condition ++ after)
  pub lead_marks : marks lead ≡ marks before
  pub after_marks : marks after ≡ marks rest
  pub bound : s.args ≡ take (marks before) args ++ (new ++ drop (marks before) args)
  pub enough : marks before ≤ length args

marks-where :
    (query : Bytes) (p : ℕ)
    → index (to_upper query) where_keyword ≡ some p
    → marks (take (p + 7) query) ≡ marks (take p query)
unfolding count to_upper
marks-where query p h = omega (
  arith,
  count-to_upper (take (p + 7) query),
  count-to_upper (take p query),
  ap marks (take-index query where_keyword p h),
  count-append b'?',
)

-- No placeholder follows RETURNING.
abbrev pub IsPlainTail : Bytes → Type 0
IsPlainTail query =
    (p : ℕ) → index (to_upper query) returning_keyword ≡ some p → marks (drop p query) ≡ 0

-- The pieces around the condition, with the number of placeholders in front of it.
pub record IsCut (condition query result : Bytes) (n : ℕ) : Type 0 where
  pub before : Bytes
  pub rest : Bytes
  pub lead : Bytes
  pub after : Bytes
  pub origin : query ≡ before ++ rest
  pub result_is : result ≡ lead ++ (condition ++ after)
  pub lead_marks : marks lead ≡ marks before
  pub after_marks : marks after ≡ marks rest
  pub number : n ≡ marks before

guard_where-IsCut :
    (condition : Bytes) (ends : List Bytes) (p : ℕ) (query : Bytes)
    → index (to_upper query) where_keyword ≡ some p
    → IsCut condition query (guard_where condition ends p query) (marks (take p query))
unfolding guard_where count is_space
guard_where-IsCut condition ends p query h =
    let after_where = drop (p + 7) query in
    let stop = first_of_all (drop (p + 7) (to_upper query)) ends (length after_where) in
    record {
      before = take (p + 7) query;
      rest = after_where;
      lead = take (p + 7) query;
      after =
          codes " AND (" ++ (trim_space (take stop after_where) ++ (b')' ∷ drop stop after_where));
      origin = sym (take-append-drop (p + 7) query);
      result_is = refl;
      lead_marks = refl;
      after_marks = omega (
        arith,
        count-append b'?',
        count-trim_space b'?' (take stop after_where) refl,
        ap marks (take-append-drop stop after_where),
      );
      number = sym (marks-where query p h);
    }

module _ (condition query : Bytes) where
  guard_text-IsCut :
      IsPlainTail query → IsCut condition query (guard_text condition query) (set_arg_count query)
  unfolding guard_text set_arg_count count
  guard_text-IsCut plain = elim (Option-cases (index (to_upper query) where_keyword)) [
    | inr (p, e) ↦
        rw (e, guard_text, set_arg_count) (guard_where-IsCut condition returning_ends p query e)
    | inl e ↦ elim (Option-cases (index (to_upper query) returning_keyword)) [
      | inr (p, e') ↦
          rw (e, e', guard_text, set_arg_count)
            (record {
              before = take p query;
              rest = drop p query;
              lead = take p query ++ codes " WHERE ";
              after = drop p query;
              origin = sym (take-append-drop p query);
              result_is =
                  sym (append_assoc (take p query) (codes " WHERE ") (condition ++ drop p query));
              lead_marks = omega (arith, count-append b'?');
              after_marks = refl;
              number = omega (
                arith,
                plain p e',
                count-append b'?' (take p query) (drop p query),
                ap marks (take-append-drop p query),
              );
            })
      | inl e' ↦
          rw (e, e', guard_text, set_arg_count)
            (record {
              before = query;
              rest = [];
              lead = query ++ codes " WHERE ";
              after = [];
              origin = sym (append-nil query);
              result_is = rw append-nil (sym (append_assoc query (codes " WHERE ") condition));
              lead_marks = omega (arith, count-append b'?');
              after_marks = refl;
              number = refl;
            })
    ]
  ]

pub insert_args-ok :
    (n : ℕ) (new args result : List Value)
    → insert_args n new args ≡ ok result
    → (n ≤ length args) × (result ≡ take n args ++ (new ++ drop n args))
unfolding insert_args
insert_args-ok n new args result h = elim (Bool-cases (ltb (length args) n)) [
  | inl short ↦ absurd (let bad = rw short at h in cc)
  | inr fits ↦ (ground arith, sym (ok-injective _ result (rw fits at h)))
]

-- The arguments before WHERE are those whose placeholders stand in front of the condition.
pub marks-guard_front :
    (query : Bytes) → IsPlainTail query → marks (guard_front query) ≡ set_arg_count query
unfolding guard_front set_arg_count count
marks-guard_front query plain = elim (Option-cases (index (to_upper query) where_keyword)) [
  | inr (p, e) ↦ rw (e, guard_front, set_arg_count) (marks-where query p e)
  | inl e ↦ elim (Option-cases (index (to_upper query) returning_keyword)) [
    | inr (p, e') ↦
        rw (e, e', guard_front, set_arg_count)
          (omega (
            arith,
            plain p e',
            count-append b'?' (take p query) (codes " WHERE "),
            count-append b'?' (take p query) (drop p query),
            ap marks (take-append-drop p query),
          ))
    | inl e' ↦
        rw (e, e', guard_front, set_arg_count)
          (omega (arith, count-append b'?' query (codes " WHERE ")))
  ]
]

-- What a SELECT has in front of its conditions, or of the place where they are put.
unfoldable pub select_head : Bytes → Bytes
unfolding index first_of_all
select_head query = elim (index (to_upper query) where_keyword) [
  | some p ↦ take p query
  | none ↦ take (first_of_all (to_upper query) select_ends (length query)) query
]

select_text-IsCut :
    (condition query : Bytes)
    → IsCut condition query (select_text condition query) (marks (select_head query))
unfolding select_text select_head count is_space
select_text-IsCut condition query = elim (Option-cases (index (to_upper query) where_keyword)) [
  | inr (p, e) ↦
      rw (e, select_text, select_head) (guard_where-IsCut condition select_ends p query e)
  | inl e ↦
      let p = first_of_all (to_upper query) select_ends (length query) in
      rw (e, select_text, select_head)
        (record {
          before = take p query;
          rest = drop p query;
          lead = trim_space (take p query) ++ codes " WHERE ";
          after = drop p query;
          origin = sym (take-append-drop p query);
          result_is = sym (
              append_assoc (trim_space (take p query)) (codes " WHERE ")
                (condition ++ drop p query));
          lead_marks = omega (arith, count-append b'?', count-trim_space b'?' (take p query) refl);
          after_marks = refl;
          number = refl;
        })
]

module _ (condition query result : Bytes) (n : ℕ) (new args new_args : List Value) where
  pub bind-IsCut :
      IsCut condition query result n
      → n ≤ length args
      → new_args ≡ take n args ++ (new ++ drop n args)
      → IsBound condition query new args (record { query = result; args = new_args })
  bind-IsCut cut enough value = record {
    before = cut.before;
    rest = cut.rest;
    lead = cut.lead;
    after = cut.after;
    origin = cut.origin;
    result = cut.result_is;
    lead_marks = cut.lead_marks;
    after_marks = cut.after_marks;
    bound = rw (← cut.number) value;
    enough = rw (← cut.number) enough;
  }

module _ (config : Config) (tenant_id query : Bytes) (args : List Value) (n : ℕ)
    (s : Statement) where
  -- An UPDATE that is rewritten for ? placeholders, none of which follows RETURNING, is cut in two
  -- with the condition in between; each part keeps the number of its placeholders, and the tenant
  -- stands between the arguments of the two, so that it meets the placeholder of the condition and
  -- every other argument the one that it had.
  pub inject_update-IsBound :
      inject_update config question tenant_id query args n ≡ ok s
      → IsPlainTail query
      → IsBound (equals config.tenant_column (codes "?")) query (text tenant_id ∷ []) args s
  unfolding inject_update update_args placeholder
  inject_update-IsBound h plain =
      let (new_args, e, r) = >>=-eq-ok _ _ s h in
      let same = ok-injective _ s r in
      let (enough, value) =
        insert_args-ok (set_arg_count query) (text tenant_id ∷ []) args new_args e in
      rw (← same) (
        bind-IsCut _ query _ (set_arg_count query) (text tenant_id ∷ []) args new_args
          (guard_text-IsCut (equals config.tenant_column (codes "?")) query plain) enough value)

  -- A DELETE that is rewritten for ? placeholders, none of which follows RETURNING, is cut in two
  -- with the condition in between, each part with its placeholders, and the tenant stands between
  -- the arguments of the two, if none stands before WHERE, or none at all where there is no WHERE.
  pub inject_delete-IsBound :
      inject_delete config question tenant_id query args n ≡ ok s
      → IsPlainTail query
      → set_arg_count query ≡ 0
      → IsBound (equals config.tenant_column (codes "?")) query (text tenant_id ∷ []) args s
  unfolding inject_delete tenant_first placeholder
  inject_delete-IsBound h plain none_before =
      let same = ok-injective _ s h in
      let cut = guard_text-IsCut (equals config.tenant_column (codes "?")) query plain in
      rw (← same) (
        bind-IsCut _ query _ 0 (text tenant_id ∷ []) args _ (rw none_before at cut) (omega arith)
          refl)

-- A SELECT that gets the filters of at least one tenant table for ? placeholders is cut in two with
-- the filters in between, each part with its placeholders, and the tenant stands once for each
-- table between the arguments of the two, if no ? placeholder stands before WHERE or the place
-- where WHERE is put.
pub filter_select-IsBound :
    (config : Config) (tenant_id query : Bytes) (args : List Value) (n : ℕ) (tables : List TableRef)
    → tables ≢ []
    → marks (select_head query) ≡ 0
    → IsBound
        (conditions config question (suc n) tables)
        query
        (replicate (length tables) (text tenant_id))
        args
        (filter_select config question tenant_id tables query args n)
unfolding filter_select tenant_first
filter_select-IsBound config tenant_id query args n [] given none_before = absurd (given refl)
filter_select-IsBound config tenant_id query args n (t ∷ ts) given none_before =
    let cut = select_text-IsCut (conditions config question (suc n) (t ∷ ts)) query in
    bind-IsCut _ query _ 0 (replicate (length (t ∷ ts)) (text tenant_id)) args _
      (rw none_before at cut) (omega arith) refl
