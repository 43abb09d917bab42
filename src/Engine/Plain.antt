-- ===== src/Engine/Plain.antt =====
-- The rewriting with no cache, and how the tests on a query's prefix exclude one another.
use tenantkit.Engine.{Kind, select, update, delete, insert, unknown, kind_of, inject_kind}
use tenantkit.Inject.{Value, Injected}
use tenantkit.Placeholder.{PlaceholderStyle}
use tenantkit.Prelude.{◌≡◌, Bool, true, false, inl, inr, Bool-cases, List, [], ◌∷◌, arith}
use tenantkit.Tables.{Config}
use tenantkit.Text.{Bytes, codes, to_upper, has_prefix, trim_space}

-- `injectTenantFilter` as it would be with no cache.
unfoldable pub inject_plain : Config → PlaceholderStyle → Bytes → Bytes → List Value → Injected
inject_plain config style query tenant_id args =
    inject_kind config style tenant_id (kind_of (trim_space query)) (trim_space query) args

abbrev pub starts_update : Bytes → Bool
starts_update query = has_prefix (to_upper query) (codes "UPDATE")

-- Which prefix a kind stands for.
abbrev pub HasKind : Kind → Bytes → Type 0
HasKind select u = has_prefix u (codes "UPDATE") ≡ false
HasKind update u = has_prefix u (codes "UPDATE") ≡ true
HasKind delete u = has_prefix u (codes "UPDATE") ≡ false
HasKind insert u = has_prefix u (codes "UPDATE") ≡ false
HasKind unknown u = has_prefix u (codes "UPDATE") ≡ false

select-not-update :
    (u : Bytes) → has_prefix u (codes "SELECT") ≡ true → has_prefix u (codes "UPDATE") ≡ false
unfolding has_prefix
select-not-update [] h = cc
select-not-update (c ∷ u) h = ground arith

-- A query is an UPDATE for the switch exactly if it is one for the code of a hit.
pub kind_of-HasKind : (query : Bytes) → HasKind (kind_of query) (to_upper query)
unfolding kind_of
kind_of-HasKind query = elim (Bool-cases (has_prefix (to_upper query) (codes "SELECT"))) [
  | inl s ↦ rw s (select-not-update (to_upper query) s)
  | inr s ↦ elim (Bool-cases (has_prefix (to_upper query) (codes "UPDATE"))) [
    | inl u ↦ rw (s, u) u
    | inr u ↦ elim (Bool-cases (has_prefix (to_upper query) (codes "DELETE"))) [
      | inl d ↦ rw (s, u, d) u
      | inr d ↦ elim (Bool-cases (has_prefix (to_upper query) (codes "INSERT"))) [
        | inl i ↦ rw (s, u, d, i) u
        | inr i ↦ rw (s, u, d, i) u
      ]
    ]
  ]
]
