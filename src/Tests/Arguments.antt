-- ===== src/Tests/Arguments.antt =====
-- The arguments of rewritten queries in the ? style.
use tenantkit.Prelude.{◌≡◌, refl, none, ok, [], ◌∷◌, List, replicate}
use tenantkit.Tests.{shop_config, running}
use tenantkit.Inject.{
  other, text, Statement, inject_update, inject_delete, filter_select, conditions, set_arg_count,
  equals, returning_keyword,
}
use tenantkit.Inject.Args.{
  IsBound, marks, select_head, inject_update-IsBound, inject_delete-IsBound, filter_select-IsBound,
}
use tenantkit.Placeholder.{question}
use tenantkit.Tables.{TableRef}
use tenantkit.Text.{Bytes, codes, index, to_upper}

abbrev update_query : Bytes
update_query = codes "UPDATE users SET a = ? WHERE b = ?"

abbrev updated : Statement
updated = record {
  query = codes "UPDATE users SET a = ? WHERE tenant_id = ? AND (b = ?)";
  args = other 1 ∷ text (codes "acme") ∷ other 2 ∷ [];
}

update-run :
    inject_update shop_config question (codes "acme") update_query (other 1 ∷ other 2 ∷ []) 2
    ≡ ok updated
unfolding running
update-run = refl

update-tail : index (to_upper update_query) returning_keyword ≡ none
unfolding running
update-tail = refl

inject_update-IsBound_example :
    IsBound
      (equals shop_config.tenant_column (codes "?"))
      update_query
      (text (codes "acme") ∷ [])
      (other 1 ∷ other 2 ∷ [])
      updated
inject_update-IsBound_example =
    inject_update-IsBound shop_config (codes "acme") update_query (other 1 ∷ other 2 ∷ []) 2 updated
      update-run (λ p h. absurd (let bad = rw update-tail at h in cc))

abbrev delete_query : Bytes
delete_query = codes "DELETE FROM users WHERE b = ?"

abbrev deleted : Statement
deleted = record {
  query = codes "DELETE FROM users WHERE tenant_id = ? AND (b = ?)";
  args = text (codes "acme") ∷ other 2 ∷ [];
}

delete-run :
    inject_delete shop_config question (codes "acme") delete_query (other 2 ∷ []) 1 ≡ ok deleted
unfolding running
delete-run = refl

delete-tail : index (to_upper delete_query) returning_keyword ≡ none
unfolding running
delete-tail = refl

delete-head : set_arg_count delete_query ≡ 0
unfolding running
delete-head = refl

inject_delete-IsBound_example :
    IsBound
      (equals shop_config.tenant_column (codes "?"))
      delete_query
      (text (codes "acme") ∷ [])
      (other 2 ∷ [])
      deleted
inject_delete-IsBound_example =
    inject_delete-IsBound shop_config (codes "acme") delete_query (other 2 ∷ []) 1 deleted
      delete-run (λ p h. absurd (let bad = rw delete-tail at h in cc)) delete-head

abbrev select_query : Bytes
select_query = codes "SELECT a FROM users WHERE b = ?"

abbrev users : List TableRef
users = record { name = codes "users"; alias = [] } ∷ []

select-head : marks (select_head select_query) ≡ 0
unfolding running select_head
select-head = refl

filter_select-IsBound_example :
    IsBound
      (conditions shop_config question 2 users)
      select_query
      (replicate 1 (text (codes "acme")))
      (other 2 ∷ [])
      (filter_select shop_config question (codes "acme") users select_query (other 2 ∷ []) 1)
filter_select-IsBound_example =
    filter_select-IsBound shop_config (codes "acme") select_query (other 2 ∷ []) 1 users
      (λ e. absurd cc) select-head
