-- ===== src/TenantContext.antt =====
-- tenantkit/context.go: the tenant and the bypass flag in a Go context.
pub mod Laws
use tenantkit.Prelude.{
  ℕ, zero, suc, ◌+◌, ◌-◌, ◌*◌, ◌/◌, ◌%◌, ◌^◌, ◌≤◌, ◌<◌, min, ◌≡◌, refl, sym, ap, ◌∙◌, subst, ◌≢◌,
  ◌↔◌, ◌⊎◌, inl, inr, Bool, true, false, not, ◌&&◌, ◌||◌, Option, none, some, List, [], ◌∷◌, ◌++◌,
  map, foldr, reverse, append-nil, append_assoc, arith, ltb, leb, ◌==◌, if◌then◌else◌, Bool-cases,
  Option-cases, length, get_elem?, take, drop, replicate, any, All, length-append, take-append-drop,
  length-take, length-drop, length-replicate, take-append_left, drop-append_left,
  get_elem?-append_at, All-append, length-map, Result, ok, err, panic, ◌>>=◌, ok-injective,
  >>=-eq-ok, ℤ, pos, negsuc, is_negative, is_at_most_zero, magnitude,
}
use tenantkit.Domain.{
  Context, value_of, GoContext, Any, bypass_key, DomainError, from_go_context, with_value, boolean,
  tenant_id_key, string,
}
use tenantkit.Text.{bytes_eq, Bytes}

unfoldable pub with_tenant : GoContext → Bytes → GoContext
with_tenant ctx tenant_id = with_value ctx tenant_id_key (string tenant_id)

-- The fallback: the tenant context that the HTTP adapters have stored.
unfoldable pub from_domain : Result DomainError Context → Bytes × Bool
unfolding bytes_eq
from_domain (ok tc) = (tc.tenant_id.value, not (bytes_eq tc.tenant_id.value []))
from_domain (err e) = ([], false)
from_domain panic = ([], false)

-- `ctx.Value(tenantIDKey).(string)`
unfoldable pub string_of_value : Option Any → Option Bytes
string_of_value (some (string s)) = some s
string_of_value _ = none

unfoldable pub get_tenant : GoContext → Bytes × Bool
unfolding value_of string_of_value from_domain from_go_context bytes_eq
get_tenant ctx = elim (string_of_value (value_of ctx tenant_id_key)) [
  | none ↦ from_domain (from_go_context (some ctx))
  | some tenant_id ↦
      if bytes_eq tenant_id [] then from_domain (from_go_context (some ctx)) else (tenant_id, true)
]

unfoldable pub without_tenant_filtering : GoContext → GoContext
without_tenant_filtering ctx = with_value ctx bypass_key (boolean true)

unfoldable pub bypass_of_value : Option Any → Bool
bypass_of_value (some (boolean b)) = b
bypass_of_value _ = false

unfoldable pub should_bypass : GoContext → Bool
unfolding value_of bypass_of_value
should_bypass ctx = bypass_of_value (value_of ctx bypass_key)
