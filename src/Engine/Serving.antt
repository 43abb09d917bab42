-- ===== src/Engine/Serving.antt =====
-- The entry that a miss stores serves the query again, for each kind of query.
use tenantkit.Engine.{
  Kind, select, update, delete, unknown, insert, kind_of, from_entry, inject_kind,
}
use tenantkit.Inject.{
  Value, text, Statement, tenant_first, update_args, inject_select, filter_select, inject_update,
  inject_delete, insert_parts, inject_insert, column_exists_in_list, or_error, insert_keyword,
  values_keyword,
}
use tenantkit.Placeholder.{
  PlaceholderStyle, question, dollar, colon, renumber_placeholders, count_placeholders,
}
use tenantkit.Prelude.{
  ℕ, ◌-◌, ◌≡◌, refl, true, false, inl, inr, List, [], ◌∷◌, length, replicate, arith, ok,
  ok-injective, >>=-eq-ok, Bool-cases, ltb, take, drop, suc, ◌+◌, if◌then◌else◌, panic,
}
use tenantkit.QueryCache.{Entry}
use tenantkit.Tables.{
  Config, TableRef, extract_all_tables, filter_tenant_tables, invalid_insert, explicit_columns,
}
use tenantkit.Text.{Bytes, codes, to_upper, has_prefix, contains, index}
use tenantkit.Engine.Plain.{HasKind, kind_of-HasKind}
use tenantkit.Engine.Entries.{
  entry_of, IsReusable, Serves, length-tenant_first, cached_args-first, cached_args-update,
  length-update_args, tenant_first-nil,
}

from_entry-first :
    (style : PlaceholderStyle) (query transformed : Bytes) (n : ℕ) (tenant_id : Bytes)
    (args : List Value)
    → has_prefix (to_upper query) (codes "UPDATE") ≡ false
    → from_entry style tenant_id query args (entry_of query transformed n)
      ≡ ok (record {
        query = transformed;
        args = tenant_first style (replicate n (text tenant_id)) args;
      })
unfolding from_entry
from_entry-first style query transformed n tenant_id args h =
    rw (cached_args-first style tenant_id query n args h)

module _ (config : Config) (style : PlaceholderStyle) (query : Bytes) where
  -- The entry that is stored for a statement.
  abbrev pub entry_for : Statement → List Value → Entry
  entry_for s args = entry_of query s.query (length s.args - length args)

  filter_select_entry :
      (tables : List TableRef) (existing : ℕ) (tenant_id other_id : Bytes)
      (args others : List Value)
      → has_prefix (to_upper query) (codes "UPDATE") ≡ false
      → from_entry style other_id query others
          (entry_for (filter_select config style tenant_id tables query args existing) args)
        ≡ ok (filter_select config style other_id tables query others existing)
  unfolding filter_select
  filter_select_entry [] existing tenant_id other_id args others h =
      let none_added : length args - length args ≡ 0 = omega arith in
      rw (none_added, from_entry-first style query query 0 other_id others h, tenant_first-nil)
  filter_select_entry (table ∷ tables) existing tenant_id other_id args others h = rw (
    length-tenant_first style (length (table ∷ tables)) (text tenant_id) args,
    from_entry-first style query _ (length (table ∷ tables)) other_id others h,
  )

  -- What a miss has rewritten is served to every tenant and every arguments.
  select_Serves :
      (existing : ℕ) (tenant_id : Bytes) (args : List Value) (s : Statement)
      → inject_select config style tenant_id query args existing ≡ ok s
      → has_prefix (to_upper query) (codes "UPDATE") ≡ false
      → (other_id : Bytes) (others : List Value)
      → from_entry style other_id query others (entry_for s args)
        ≡ inject_select config style other_id query others existing
  unfolding inject_select
  select_Serves existing tenant_id args s e h other_id others =
      let (tables, extracted, done) = >>=-eq-ok (extract_all_tables query) _ s e in
      rw (extracted, ← ok-injective _ s done)
        (filter_select_entry (filter_tenant_tables config tables) existing tenant_id other_id args
          others h)

  update_Serves :
      (existing : ℕ) (tenant_id : Bytes) (args : List Value) (s : Statement)
      → inject_update config style tenant_id query args existing ≡ ok s
      → has_prefix (to_upper query) (codes "UPDATE") ≡ true
      → (other_id : Bytes) (others : List Value)
      → from_entry style other_id query others (entry_for s args)
        ≡ inject_update config style other_id query others existing
  unfolding inject_update from_entry
  update_Serves existing tenant_id args s e h other_id others =
      let (new_args, updated, done) = >>=-eq-ok (update_args style tenant_id query args) _ s e in
      rw (
        ← ok-injective _ s done,
        length-update_args style tenant_id query args new_args updated,
        cached_args-update style other_id query others h,
      )

  delete_Serves :
      (existing : ℕ) (tenant_id : Bytes) (args : List Value) (s : Statement)
      → inject_delete config style tenant_id query args existing ≡ ok s
      → has_prefix (to_upper query) (codes "UPDATE") ≡ false
      → (other_id : Bytes) (others : List Value)
      → from_entry style other_id query others (entry_for s args)
        ≡ inject_delete config style other_id query others existing
  unfolding inject_delete
  delete_Serves existing tenant_id args s e h other_id others = rw (
    ← ok-injective _ s e,
    length-tenant_first style 1 (text tenant_id) args,
    from_entry-first style query _ 1 other_id others h,
  )

  -- With ? the tenant argument of an INSERT stands in front, as on a hit.
  insert_parts_Serves :
      (table_part values_part : Bytes) (paren_pos : ℕ) (tenant_id : Bytes) (args : List Value)
      (s : Statement)
      → insert_parts config question tenant_id
          (record { query = query; args = args })
          table_part
          values_part
          paren_pos
        ≡ ok s
      → has_prefix (to_upper query) (codes "UPDATE") ≡ false
      → (other_id : Bytes) (others : List Value)
      → from_entry question other_id query others (entry_for s args)
        ≡ insert_parts config question other_id
            (record { query = query; args = others })
            table_part
            values_part
            paren_pos
  unfolding insert_parts
  insert_parts_Serves table_part values_part paren_pos tenant_id args s e h other_id others =
      let upper_columns = to_upper (drop paren_pos table_part) in
      let present = column_exists_in_list upper_columns (to_upper config.tenant_column) in
      let renumbered = renumber_placeholders question values_part 1 in
      elim (Bool-cases present) [
        | inl p ↦
            let none_added : length args - length args ≡ 0 = omega arith in
            let same = ok-injective _ s (rw p at e) in
            rw (
              p,
              ← same,
              none_added,
              from_entry-first question query query 0 other_id others h,
              tenant_first-nil,
            )
        | inr p ↦ elim (Bool-cases (contains renumbered (codes "("))) [
          | inl q ↦
              let one_added : suc (length args) - length args ≡ 1 = omega arith in
              let same = ok-injective _ s (rw (p, q) at e) in
              rw (p, q, ← same, one_added, from_entry-first question query _ 1 other_id others h)
                (unfold tenant_first in refl)
          | inr q ↦ absurd (let bad = rw (p, q) at e in cc)
        ]
      ]

  insert_Serves :
      (tenant_id : Bytes) (args : List Value) (s : Statement)
      → inject_insert config question tenant_id query args ≡ ok s
      → has_prefix (to_upper query) (codes "UPDATE") ≡ false
      → (other_id : Bytes) (others : List Value)
      → from_entry question other_id query others (entry_for s args)
        ≡ inject_insert config question other_id query others
  unfolding inject_insert
  insert_Serves tenant_id args s e h other_id others =
      let (insert_pos, e1, r1) =
        >>=-eq-ok (or_error invalid_insert (index (to_upper query) insert_keyword)) _ s e in
      let (values_pos, e2, r2) =
        >>=-eq-ok (or_error explicit_columns (index (to_upper query) values_keyword)) _ s r1 in
      let start = insert_pos + 12 in
      let (table_part, e3, r3) =
        >>=-eq-ok
          (if ltb values_pos start
            then panic
            else ok (take (values_pos - start) (drop start query)))
          _ s r2 in
      let (paren_pos, e4, r4) =
        >>=-eq-ok (or_error explicit_columns (index table_part (codes "("))) _ s r3 in
      rw (e1, e2, e3, e4)
        (insert_parts_Serves table_part (drop (values_pos + 8) query) paren_pos tenant_id args s r4
          h other_id others)

  unknown_Serves :
      (args : List Value)
      → has_prefix (to_upper query) (codes "UPDATE") ≡ false
      → (other_id : Bytes) (others : List Value)
      → from_entry style other_id query others
          (entry_for (record { query = query; args = args }) args)
        ≡ ok (record { query = query; args = others })
  unknown_Serves args h other_id others =
      let none_added : length args - length args ≡ 0 = omega arith in
      rw (none_added, from_entry-first style query query 0 other_id others h, tenant_first-nil)

module _ (config : Config) where
  -- Every miss that is rewritten leaves an entry that serves all tenants.
  kind_Serves :
      (style : PlaceholderStyle) (kind : Kind) (query tenant_id : Bytes) (args : List Value)
      (s : Statement)
      → HasKind kind (to_upper query)
      → IsReusable style kind
      → inject_kind config style tenant_id kind query args ≡ ok s
      → (other_id : Bytes) (others : List Value)
      → from_entry style other_id query others (entry_for config style query s args)
        ≡ inject_kind config style other_id kind query others
  unfolding inject_kind
  kind_Serves style select query tenant_id args s k r e =
      select_Serves config style query (count_placeholders style query) tenant_id args s e k
  kind_Serves style update query tenant_id args s k r e =
      update_Serves config style query (count_placeholders style query) tenant_id args s e k
  kind_Serves style delete query tenant_id args s k r e =
      delete_Serves config style query (count_placeholders style query) tenant_id args s e k
  kind_Serves question insert query tenant_id args s k r e =
      insert_Serves config question query tenant_id args s e k
  kind_Serves dollar insert query tenant_id args s k r e = absurd (r refl)
  kind_Serves colon insert query tenant_id args s k r e = absurd (r refl)
  kind_Serves style unknown query tenant_id args s k r e =
      rw (← ok-injective _ s e) (unknown_Serves config style query args k)

  pub miss_Serves :
      (style : PlaceholderStyle) (query tenant_id : Bytes) (args : List Value) (s : Statement)
      → IsReusable style (kind_of query)
      → inject_kind config style tenant_id (kind_of query) query args ≡ ok s
      → Serves config style query (entry_for config style query s args)
  miss_Serves style query tenant_id args s r e =
      kind_Serves style (kind_of query) query tenant_id args s (kind_of-HasKind query) r e
