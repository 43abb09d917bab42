-- ===== src/TenantContext/Laws.antt =====
-- What the interceptor finds in a context.
use tenantkit.Prelude.{
  ℕ, ◌≡◌, ◌≢◌, ◌↔◌, inl, inr, true, none, some, [], arith, Bool-cases, Option-cases, Result, ok,
  err, panic,
}
use tenantkit.Domain.{
  Context, GoContext, new_context, value_of, tenant_id_key, to_go_context, DomainError,
  from_go_context,
}
use tenantkit.TenantContext.{get_tenant, with_tenant, string_of_value, from_domain}
use tenantkit.Text.{Bytes, bytes_eq}
use tenantkit.Text.Equality.{bytes_eq_iff}
use tenantkit.Domain.Laws.{from-to_go_context, nonempty_of_new_context, ne-nil_of_pos}

from_domain-ok :
    (r : Result DomainError Context) → ((from_domain r).1 ≡ true) ↔ ((from_domain r).0 ≢ [])
unfolding from_domain
from_domain-ok (ok tc) = ground (arith, bytes_eq_iff tc.tenant_id.value [])
from_domain-ok (err e) = ground arith
from_domain-ok panic = ground arith

-- GetTenant reports a tenant exactly if the id that it returns is not empty.
pub get_tenant-ok : (ctx : GoContext) → ((get_tenant ctx).1 ≡ true) ↔ ((get_tenant ctx).0 ≢ [])
unfolding get_tenant
get_tenant-ok ctx = elim (Option-cases (string_of_value (value_of ctx tenant_id_key))) [
  | inl e ↦ rw (e, get_tenant) (from_domain-ok (from_go_context (some ctx)))
  | inr (id, e) ↦ elim (Bool-cases (bytes_eq id [])) [
    | inl empty ↦ rw (e, get_tenant, empty) (from_domain-ok (from_go_context (some ctx)))
    | inr given ↦ rw (e, get_tenant, given) (ground (arith, bytes_eq_iff id []))
  ]
]

-- The tenant that WithTenant has set, if its id is not empty, is found over whatever the adapters
-- had stored.
pub get_tenant-with_tenant :
    (ctx : GoContext) (tenant_id : Bytes)
    → tenant_id ≢ []
    → get_tenant (with_tenant ctx tenant_id) ≡ (tenant_id, true)
unfolding get_tenant with_tenant
get_tenant-with_tenant ctx tenant_id h = ground (arith, bytes_eq_iff tenant_id [])

-- The tenant of a context that NewContext has made and an adapter has stored is found where nothing
-- stands under the key of WithTenant.
pub get_tenant-to_go_context :
    (now : ℕ) (tenant_id user_id request_id : Bytes) (c : Context) (ctx : GoContext)
    → new_context now tenant_id user_id request_id ≡ ok c
    → value_of ctx tenant_id_key ≡ none
    → get_tenant (to_go_context c ctx) ≡ (c.tenant_id.value, true)
unfolding get_tenant from_domain to_go_context
get_tenant-to_go_context now tenant_id user_id request_id c ctx h none_set =
    rw (none_set, from-to_go_context now tenant_id user_id request_id c ctx h)
      (rw (
        ne-nil_of_pos c.tenant_id.value
          (nonempty_of_new_context now tenant_id user_id request_id c h)))
