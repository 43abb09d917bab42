-- ===== src/Http/Middleware.antt =====
-- adapters/http-stdlib/middleware.go and context.go: the middleware that puts a request's tenant in its
-- context, and what reads it there. `R` is what a handler does; no value of it is a panic.
pub mod Laws
use tenantkit.Prelude.{
  ℕ, zero, suc, ◌+◌, ◌-◌, ◌*◌, ◌/◌, ◌%◌, ◌^◌, ◌≤◌, ◌<◌, min, ◌≡◌, refl, sym, ap, ◌∙◌, subst, ◌≢◌,
  ◌↔◌, ◌⊎◌, inl, inr, Bool, true, false, not, ◌&&◌, ◌||◌, Option, none, some, List, [], ◌∷◌, ◌++◌,
  map, foldr, reverse, append-nil, append_assoc, arith, ltb, leb, ◌==◌, if◌then◌else◌, Bool-cases,
  Option-cases, length, get_elem?, take, drop, replicate, any, All, length-append, take-append-drop,
  length-take, length-drop, length-replicate, take-append_left, drop-append_left,
  get_elem?-append_at, All-append, length-map, Result, ok, err, panic, ◌>>=◌, ok-injective,
  >>=-eq-ok, ℤ, pos, negsuc, is_negative, is_at_most_zero, magnitude,
}
use tenantkit.Domain.{DomainError, Context, GoContext, new_context, to_go_context, from_go_context}
use tenantkit.Http.{Request}
use tenantkit.Http.Resolver.{Resolved, ResolveError}
use tenantkit.Text.{Bytes, codes, bytes_eq}

-- An error is wrapped with the text of where it came from.
pub data TenantError : Type 0 where
  unresolved : ResolveError → TenantError
  bad_tenant : DomainError → TenantError

module _ {ℓ} (R : Type ℓ) where
  -- Fields that may be nil are options.
  pub record Config : Type ℓ where
    pub resolver : Option (Request → Resolved)
    pub on_error : Option (Request → TenantError → R)
    pub skip_paths : List Bytes

  pub record Middleware : Type ℓ where
    pub resolve : Request → Resolved
    pub on_error : Request → TenantError → R
    pub skip_paths : List Bytes

  -- `none` is the error that a resolver is required.
  unfoldable pub new_middleware : (Request → TenantError → R) → Config → Option Middleware
  new_middleware default_error_handler config = elim config.resolver [
    | none ↦ none
    | some resolve ↦ some (record {
      resolve = resolve;
      on_error = elim config.on_error [ none ↦ default_error_handler | some f ↦ f ];
      skip_paths = config.skip_paths;
    })
  ]

-- The status of http.Error in the default handler.
abbrev pub default_error_status : ℕ
default_error_status = 400

unfoldable pub should_skip : List Bytes → Bytes → Bool
should_skip [] path = false
should_skip (skip_path ∷ skip_paths) path = bytes_eq path skip_path || should_skip skip_paths path

module _ {ℓ} {R : Type ℓ} (m : Middleware R) (next : Request → R) where
  unfoldable pub serve_tenant : Request → Result DomainError Context → Option R
  serve_tenant r (ok tenant) = some (next (record r { ctx = to_go_context tenant r.ctx }))
  serve_tenant r (err e) = some (m.on_error r (bad_tenant e))
  serve_tenant r panic = none

  unfoldable pub serve_resolved : ℕ → Request → Resolved → Option R
  serve_resolved now r (ok tenant_id) =
      serve_tenant r (new_context now tenant_id (codes "system") (codes "http-request"))
  serve_resolved now r (err e) = some (m.on_error r (unresolved e))
  serve_resolved now r panic = none

  -- `now` is the reading of the clock.
  unfoldable pub handler : ℕ → Request → Option R
  handler now r =
      if should_skip m.skip_paths r.path then some (next r) else serve_resolved now r (m.resolve r)

unfoldable pub id_of : Result DomainError Context → Result DomainError Bytes
id_of (ok tenant) = ok tenant.tenant_id.value
id_of (err e) = err e
id_of panic = panic

unfoldable pub get_tenant_id : Request → Result DomainError Bytes
get_tenant_id r = id_of (from_go_context (some r.ctx))

unfoldable pub get_tenant_context : Request → Result DomainError Context
get_tenant_context r = from_go_context (some r.ctx)

unfoldable pub must_get_tenant_id : Request → Result DomainError Bytes
must_get_tenant_id r = elim (get_tenant_id r) [ ok id ↦ ok id | err e ↦ panic | panic ↦ panic ]

unfoldable pub must_get_tenant_context : Request → Result DomainError Context
must_get_tenant_context r = elim (get_tenant_context r) [
  | ok tenant ↦ ok tenant
  | err e ↦ panic
  | panic ↦ panic
]

unfoldable pub with_tenant_id : ℕ → Request → Bytes → Result DomainError Request
with_tenant_id now r tenant_id = do
  tenant ← new_context now tenant_id (codes "system") (codes "http-context")
  ok (record r { ctx = to_go_context tenant r.ctx })
