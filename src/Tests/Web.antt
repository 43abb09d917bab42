-- ===== src/Tests/Web.antt =====
-- Requests for the resolvers, the middleware and the rate limit of net/http.
use tenantkit.Prelude.{
  ◌+◌, ◌≤◌, ◌≡◌, refl, ◌≢◌, ◌↔◌, false, none, List, [], ◌∷◌, map, arith, All, ok, err, pos,
}
use tenantkit.Assoc.{lookup, text_eq}
use tenantkit.Domain.{GoContext, value_of, tenant_id_key}
use tenantkit.Http.{Request}
use tenantkit.Http.Resolver.{
  resolve_subdomain, resolve_path, host_of, nested_subdomain, first_part, subdomain_of,
}
use tenantkit.Http.Resolver.Subdomain.{IsSubdomain, host_name, resolve_subdomain_iff}
use tenantkit.Http.Resolver.Path.{IsPathTenant, resolve_path_iff}
use tenantkit.Http.Middleware.{Middleware, handler, should_skip}
use tenantkit.Http.Middleware.Laws.{IsServed, handler-IsServed}
use tenantkit.Http.RateLimit.{default_rate_limit_options}
use tenantkit.Http.RateLimit.Laws.{Arrival, call_of, behind_fixed_windows, passed, passed-le-limit}
use tenantkit.Limiter.FixedWindow.Rate.{IsTimed}
use tenantkit.Tests.{running}
use tenantkit.Tests.Limits.{fixed, fixed-IsFixedWindow}
use tenantkit.Text.{
  Bytes, codes, split, split_from, has_suffix, trim_suffix, has_prefix, contains, index,
}

-- A request of the tenant shop at example.com, under /tenants/acme.
abbrev request : Request
request = record {
  host = codes "shop.example.com:8080";
  header = λ name. [];
  path = codes "/tenants/acme/users";
  remote_addr = codes "10.0.0.1:999";
  ctx = [];
}

abbrev domain : Bytes
domain = codes "example.com"

finding : Unit {0}
unfolding running resolve_subdomain host_of first_part split split_from subdomain_of has_suffix
    trim_suffix has_prefix contains index
finding = tt

resolve_subdomain_iff_example :
    (resolve_subdomain domain request ≡ ok (codes "shop"))
    ↔ IsSubdomain domain (host_name request) (codes "shop")
resolve_subdomain_iff_example = resolve_subdomain_iff domain (codes "shop") request

-- The port is dropped, and a host of two labels in front of the domain is refused.
shop-found : resolve_subdomain domain request ≡ ok (codes "shop")
unfolding finding
shop-found = refl

nested-refused :
    resolve_subdomain domain (record request { host = codes "api.shop.example.com" })
    ≡ err nested_subdomain
unfolding finding
nested-refused = refl

prefix-given : codes "/tenants" ≢ []
prefix-given e = absurd (cc)

resolve_path_iff_example :
    (resolve_path (codes "/tenants") (pos 0) request ≡ ok (codes "acme"))
    ↔ IsPathTenant (codes "/tenants") 0 request.path (codes "acme")
resolve_path_iff_example = resolve_path_iff (codes "/tenants") (codes "acme") 0 request prefix-given

-- The next handler keeps the context that it is given.
abbrev middleware : Middleware GoContext
middleware = record {
  resolve = resolve_subdomain domain;
  on_error = λ r e. [];
  skip_paths = codes "/health" ∷ [];
}

abbrev next : Request → GoContext
next r = r.ctx

request-unset : value_of request.ctx tenant_id_key ≡ none
unfolding value_of
request-unset = refl

handler-IsServed_example : IsServed middleware next request (handler middleware next 5 request)
handler-IsServed_example = handler-IsServed middleware next 5 request request-unset

-- Three requests of the tenant of the path.
abbrev arrivals : List Arrival
arrivals = (5, request) ∷ (6, request) ∷ (6, request) ∷ []

abbrev by_address : Request → Bytes
by_address r = r.remote_addr

arrivals-kept : All (λ a. should_skip [] a.1.path ≡ false) arrivals
unfolding should_skip
arrivals-kept = (refl, (refl, (refl, tt)))

address-absent : lookup (codes "10.0.0.1:999") fixed.windows ≡ none
unfolding running
address-absent = refl

arrivals-IsTimed : IsTimed 5 (5 + fixed.window_size) fixed.limit (map (call_of by_address) arrivals)
arrivals-IsTimed = (
  omega arith,
  omega arith,
  omega arith,
  omega arith,
  (
    omega arith,
    omega arith,
    omega arith,
    omega arith,
    (omega arith, omega arith, omega arith, omega arith, tt),
  ),
)

passed-le-limit_example :
    passed
      (behind_fixed_windows by_address [] default_rate_limit_options)
      next
      (codes "10.0.0.1:999")
      fixed
      arrivals
    ≤ fixed.limit
passed-le-limit_example =
    passed-le-limit by_address [] default_rate_limit_options next 5 fixed (codes "10.0.0.1:999")
      arrivals arrivals-kept fixed-IsFixedWindow address-absent arrivals-IsTimed
